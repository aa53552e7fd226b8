-- ===== src/Admin/Users/Agrees.antt =====
-- useUsers.ts: which pages of users stay fresh.
use pipeline_azure.Prelude.{
  ℕ, ◌≡◌, refl, ap, true, Option, some, String, List, [], ◌∷◌, arith, Result, ok, nat_eq, string_eq,
}
use pipeline_azure.Queries.Cache.{QueryClient, key_same, starts_with, segment_same}
use pipeline_azure.Queries.Hooks.{Panel}
use pipeline_azure.Queries.Hooks.Agrees.{
  covers, Spares, Spares-covered, Spares-same, Agrees, use_query-Agrees, use_mutation-Agrees,
}
use pipeline_azure.Admin.Api.{Reply, accepted, accepted-throw}
use pipeline_azure.Admin.Users.{
  UsersApi, list_key, use_users, use_assign_admin_role, use_create_role, Event, opens, assigns,
  creates_role, step, run,
}

module _ {S Page : Type 0} (api : UsersApi S Page) where
  use_users-same :
      (n size m length : ℕ) (s : S)
      → key_same (list_key n size) (list_key m length) ≡ true
      → (use_users api n size).query_fn s ≡ (use_users api m length).query_fn s
  unfolding use_users key_same segment_same
  use_users-same n size m length s h =
      let e : n ≡ m = ground arith in
      let f : size ≡ length = ground arith in λ i. (use_users api (e i) (f i)).query_fn s

  shown : Reply Page → Result String (Option Page)
  unfolding accepted
  shown r = accepted "Failed to fetch users" r

  Spares-assign :
      (u : String) (s : S) (n size : ℕ)
      → Spares (use_assign_admin_role api u) (use_users api n size) s
  unfolding use_assign_admin_role use_users covers starts_with segment_same
  Spares-assign u s n size =
      Spares-covered _ _ s
        (λ e h.
          api.assign_admin_role-refused u s (accepted-throw _ e (api.assign_admin_role u s).0 h))
        refl

  Spares-create_role :
      (r : String) (s : S) (n size : ℕ) → Spares (use_create_role api r) (use_users api n size) s
  unfolding use_create_role use_users shown
  Spares-create_role r s n size =
      Spares-same _ _ s
        (λ e h. api.create_role-refused r s (accepted-throw _ e (api.create_role r s).0 h))
        (λ v out h. ap shown (api.get_all-create_role n size r s))

  module _ (client : QueryClient Page) where
    step-Agrees :
        (e : Event) (n size : ℕ) (p : Panel client.Cache S)
        → Agrees client (use_users api n size) p
        → Agrees client (use_users api n size) (step api client e p)
    unfolding step use_users
    step-Agrees (opens m length) n size p h =
        use_query-Agrees client (use_users api n size) (use_users api m length) p
          (use_users-same m length n size p.server) h
    step-Agrees (assigns u) n size p h =
        use_mutation-Agrees client (use_users api n size) _ p (Spares-assign u p.server n size) h
    step-Agrees (creates_role r) n size p h =
        use_mutation-Agrees client (use_users api n size) _ p (Spares-create_role r p.server n size)
          h

    run-Agrees :
        (events : List Event) (n size : ℕ) (p : Panel client.Cache S)
        → Agrees client (use_users api n size) p
        → Agrees client (use_users api n size) (run api client events p)
    unfolding run
    run-Agrees [] n size p h = h
    run-Agrees (e ∷ events) n size p h =
        run-Agrees events n size (step api client e p) (step-Agrees e n size p h)

    -- If a page of users that is fresh at first is the one that the server has: whatever pages are
    -- opened, and whatever roles are assigned and created, refused or not, the page is fresh afterwards
    -- only as the server has it then.
    users-run :
        (events : List Event) (page_number page_size : ℕ) (p : Panel client.Cache S) (v : Page)
        → Agrees client (use_users api page_number page_size) p
        → client.fresh (run api client events p).cache (list_key page_number page_size) ≡ some v
        → accepted "Failed to fetch users"
            (api.get_all page_number page_size (run api client events p).server)
          ≡ ok (some v)
    unfolding use_users
    users-run events n size p v h fresh = run-Agrees events n size p h v fresh
