-- ===== src/Admin/Users.antt =====
-- src/Presentation/Admin/src/hooks/useUsers.ts, over src/Presentation/Admin/src/lib/api/users.ts
pub mod Agrees
mod Tests
use pipeline_azure.Prelude.{
  ℕ, ◌≡◌, true, false, Option, none, some, String, List, [], ◌∷◌, Result, ok, throw,
}
use pipeline_azure.Queries.Cache.{Key, text, page, QueryClient}
use pipeline_azure.Queries.Hooks.{
  success, error_toast, Query, Mutation, Panel, use_query, use_mutation,
}
use pipeline_azure.Admin.Api.{Reply, is_accepted, accepted}

-- `usersApi` over the states of a server. A request that is refused changes nothing, and a new role
-- changes no page of users.
pub record UsersApi (S Page : Type 0) : Type 0 where
  pub get_all : ℕ → ℕ → S → Reply Page
  pub assign_admin_role : String → S → Reply String × S
  pub create_role : String → S → Reply String × S
  pub assign_admin_role-refused :
      (u : String) (s : S)
      → is_accepted (assign_admin_role u s).0 ≡ false
      → (assign_admin_role u s).1 ≡ s
  pub create_role-refused :
      (r : String) (s : S) → is_accepted (create_role r s).0 ≡ false → (create_role r s).1 ≡ s
  pub get_all-create_role :
      (n size : ℕ) (r : String) (s : S) → get_all n size (create_role r s).1 ≡ get_all n size s

abbrev pub lists_key : Key
lists_key = text "users" ∷ text "list" ∷ []

abbrev pub list_key : ℕ → ℕ → Key
list_key page_number page_size = text "users" ∷ text "list" ∷ page page_number page_size ∷ []

pub data Event : Type 0 where
  opens : (page_number page_size : ℕ) → Event
  assigns : (user_id : String) → Event
  creates_role : (role_name : String) → Event

module _ {S Page : Type 0} (api : UsersApi S Page) where
  unfoldable pub use_users : ℕ → ℕ → Query S Page
  unfolding accepted
  use_users page_number page_size = record {
    query_key = list_key page_number page_size;
    enabled = true;
    query_fn = λ s. accepted "Failed to fetch users" (api.get_all page_number page_size s);
  }

  unfoldable pub use_assign_admin_role : String → Mutation S
  unfolding accepted
  use_assign_admin_role user_id = record {
    Answer = Option String;
    mutation_fn = λ s.
        let (reply, after) = api.assign_admin_role user_id s in
        (accepted "Failed to assign admin role" reply, after);
    invalidates = lists_key ∷ [];
    on_success = some (success "Admin role assigned successfully");
    on_error = error_toast "Failed to assign admin role";
  }

  unfoldable pub use_create_role : String → Mutation S
  unfolding accepted
  use_create_role role_name = record {
    Answer = Option String;
    mutation_fn = λ s.
        let (reply, after) = api.create_role role_name s in
        (accepted "Failed to create role" reply, after);
    invalidates = [];
    on_success = some (success "Role created successfully");
    on_error = error_toast "Failed to create role";
  }

  module _ (client : QueryClient Page) where
    unfoldable pub step : Event → Panel client.Cache S → Panel client.Cache S
    unfolding use_query use_mutation use_users use_assign_admin_role use_create_role
    step (opens n size) p = use_query client (use_users n size) p
    step (assigns u) p = use_mutation client (use_assign_admin_role u) p
    step (creates_role r) p = use_mutation client (use_create_role r) p

    unfoldable pub run : List Event → Panel client.Cache S → Panel client.Cache S
    unfolding step
    run [] p = p
    run (e ∷ events) p = run events (step e p)
