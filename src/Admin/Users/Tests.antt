-- ===== src/Admin/Users/Tests.antt =====
-- useUsers.ts on a small server, whose page is the list of its admins.
use pipeline_azure.Prelude.{
  ◌≡◌, refl, arith, true, false, Option, none, some, String, List, [], ◌∷◌, ok, string_eq, ◌==◌,
  if◌then◌else◌, Bool-cases, inl, inr,
}
use pipeline_azure.Queries.Cache.{plain_client, key_same, starts_with, segment_same, Key}
use pipeline_azure.Queries.Hooks.{Panel, success, error, use_query, use_mutation, invalidate_all}
use pipeline_azure.Admin.Api.{Reply, is_accepted, accepted}
use pipeline_azure.Admin.Users.{
  list_key, UsersApi, Event, opens, assigns, creates_role, use_users, use_assign_admin_role,
  use_create_role, step, run,
}

-- The admins and the roles.
abbrev Names : Type 0
Names = List String × List String

abbrev accept : {A : Type 0} → A → Reply A
accept a = ok (record { is_success = true; value = some a; message = none })

abbrev assign : String → Names → Reply String × Names
assign u s =
    if u == ""
    then (ok (record { is_success = false; value = none; message = none }), s)
    else (accept u, (u ∷ s.0, s.1))

assign_refused : (u : String) (s : Names) → is_accepted (assign u s).0 ≡ false → (assign u s).1 ≡ s
assign_refused u s h = elim (Bool-cases (u == "")) [
  | inl empty ↦ rw empty refl
  | inr full ↦ absurd (ground (arith, h, full))
]

role_refused : (r : String) (s : Names) → is_accepted (accept r) ≡ false → (s.0, r ∷ s.1) ≡ s
role_refused r s h = cc

abbrev api : UsersApi Names (List String)
api = record {
  get_all = λ n size s. accept s.0;
  assign_admin_role = assign;
  create_role = λ r s. (accept r, (s.0, r ∷ s.1));
  assign_admin_role-refused = assign_refused;
  create_role-refused = role_refused;
  get_all-create_role = λ n size r s. refl;
}

abbrev empty : Panel (Key → Option (List String)) Names
empty = record { cache = λ k. none; server = ([], []); effects = [] }

abbrev requests : List Event
requests = opens 1 10 ∷ assigns "ann" ∷ assigns "" ∷ opens 1 10 ∷ creates_role "clerk" ∷ []

-- The page is read again after the first admin, and stays fresh.
requests_example :
    (run api (plain_client _) requests empty).cache (list_key 1 10) ≡ some ("ann" ∷ [])
unfolding run step use_query use_mutation use_users use_assign_admin_role use_create_role accepted
    invalidate_all key_same starts_with segment_same
requests_example = refl

effects_example :
    (run api (plain_client _) requests empty).effects
    ≡ success "Admin role assigned successfully"
      ∷ error "Failed to assign admin role"
      ∷ success "Role created successfully"
      ∷ []
unfolding run step use_query use_mutation use_users use_assign_admin_role use_create_role accepted
effects_example = refl
