-- ===== src/Admin/Session/Reload.antt =====
-- auth-store.ts: what a reload of the page finds.
use pipeline_azure.Prelude.{
  ◌≡◌, refl, ℕ, true, false, none, some, String, Option, List, [], ◌∷◌, is_truthy, Bool, ◌&&◌,
  nat_eq, ◌==◌, if◌then◌else◌,
}
use pipeline_azure.Json.{Json}
use pipeline_azure.Http.{clear_tokens}
use pipeline_azure.Admin.Http.{admin_keys}
use pipeline_azure.Admin.Cookies.{Text}
use pipeline_azure.Admin.Session.{
  Panel, AuthResponse, initial_store, store_tokens, set_access_token, set_tokens, set_refresh_token,
  on_login, reset_access_token, reset_refresh_token, reset, log_out, sign_out, on_query_error,
}
use pipeline_azure.Admin.Session.Kept.{
  IsPlain, AllPlain, Kept, Kept-same, set_access_token-Kept, set_refresh_token-Kept,
  reset_access_token-Kept, reset_refresh_token-Kept,
}

-- What the panel does with its session.
pub data Event : Type 0 where
  logs_in : AuthResponse → (email : String) → (now : ℕ) → Event
  sets_access_token sets_refresh_token : String → Event
  resets_access_token resets_refresh_token resets logs_out signs_out : Event
  query_fails : (is_prod : Bool) → Option ℕ → Event

module _ (json : Json Text String) where
  unfoldable pub step : Event → Panel → Panel
  step (logs_in answer email now) p = on_login json answer email now p
  step (sets_access_token t) p = set_access_token json t p
  step (sets_refresh_token t) p = set_refresh_token json t p
  step resets_access_token p = reset_access_token p
  step resets_refresh_token p = reset_refresh_token p
  step resets p = reset p
  step logs_out p = log_out p
  step signs_out p = sign_out p
  step (query_fails is_prod status) p = on_query_error is_prod status p

  unfoldable pub run : List Event → Panel → Panel
  unfolding step
  run [] p = p
  run (e ∷ events) p = run events (step e p)

  abbrev pub ArePlain : Event → Type 0
  ArePlain (logs_in answer email now) =
      AllPlain json answer.access_token × AllPlain json answer.refresh_token
  ArePlain (sets_access_token t) = IsPlain json t
  ArePlain (sets_refresh_token t) = IsPlain json t
  ArePlain _ = Unit {0}

  abbrev pub AllOf : List Event → Type 0
  AllOf [] = Unit {0}
  AllOf (e ∷ events) = ArePlain e × AllOf events

  Kept-if : (b : Bool) (p q : Panel) → Kept json p → Kept json q → Kept json (if b then p else q)
  Kept-if true p q k l = k
  Kept-if false p q k l = l

  reset-Kept : (p : Panel) → Kept json p → Kept json (reset p)
  unfolding reset reset_access_token reset_refresh_token
  reset-Kept p k =
      Kept-same json _ (reset p)
        (reset_refresh_token-Kept json (reset_access_token p) (reset_access_token-Kept json p k))
        refl refl refl

  store_tokens-Kept :
      (access refresh : Option String) (p : Panel)
      → AllPlain json access
      → AllPlain json refresh
      → Kept json p
      → Kept json (store_tokens json access refresh p)
  store_tokens-Kept none refresh p a r k = k
  store_tokens-Kept (some access) none p a r k = k
  store_tokens-Kept (some access) (some refresh) p a r k =
      Kept-if (is_truthy access && is_truthy refresh) _ p
        (set_refresh_token-Kept json refresh _ r (
          set_access_token-Kept json access _ a
            (Kept-same json p (set_tokens json access refresh p) k refl refl refl)))
        k

  step-Kept : (e : Event) (p : Panel) → ArePlain e → Kept json p → Kept json (step e p)
  unfolding step on_login log_out sign_out on_query_error
  step-Kept (logs_in answer email now) p (a, r) k =
      Kept-same json (store_tokens json answer.access_token answer.refresh_token p) _
        (store_tokens-Kept answer.access_token answer.refresh_token p a r k) refl refl refl
  step-Kept (sets_access_token t) p plain k = set_access_token-Kept json t p plain k
  step-Kept (sets_refresh_token t) p plain k = set_refresh_token-Kept json t p plain k
  step-Kept resets_access_token p plain k = reset_access_token-Kept json p k
  step-Kept resets_refresh_token p plain k = reset_refresh_token-Kept json p k
  step-Kept resets p plain k = reset-Kept p k
  step-Kept logs_out p plain k =
      let p' = record p { local = clear_tokens admin_keys p.local } in
      Kept-same json (reset p') _ (reset-Kept p' (Kept-same json p p' k refl refl refl)) refl refl
        refl
  step-Kept signs_out p plain k = Kept-same json (reset p) _ (reset-Kept p k) refl refl refl
  step-Kept (query_fails is_prod none) p plain k = k
  step-Kept (query_fails is_prod (some status)) p plain k =
      Kept-if (status == 401) _ _ (Kept-same json (reset p) _ (reset-Kept p k) refl refl refl)
        (Kept-if (status == 500 && is_prod) _ p (Kept-same json p _ k refl refl refl) k)

  run-Kept :
      (events : List Event) (p : Panel) → AllOf events → Kept json p → Kept json (run events p)
  unfolding run
  run-Kept [] p plain k = k
  run-Kept (e ∷ events) p (first, plain) k =
      run-Kept events (step e p) plain (step-Kept e p first k)

  -- From a panel whose cookies can be read and hold the tokens of its store: after any logins,
  -- changes of a token, ways to log out and queries that fail, a reload of the page starts with the
  -- two tokens that the store holds, and with no user. The JSON of the tokens that are stored
  -- holds no semicolon and, being quoted, no white space at its ends, so that a cookie keeps it whole.
  pub initial_store-run :
      (events : List Event) (p : Panel)
      → AllOf events
      → Kept json p
      → let p' = run events p in
        initial_store json p'.cookies ≡ some (record p'.store { user = none })
  unfolding initial_store
  initial_store-run events p plain k =
      let k' = run-Kept events p plain k in rw (k'.access, k'.refresh) refl
