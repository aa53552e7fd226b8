-- ===== src/Http/Tokens.antt =====
-- The response interceptor: the tokens after an answer to a refresh.
use mathlib.Core.List.{map, append_assoc}
use Prim.Native.String.{◌++◌ as append}
use text.Mathlib.Text.{◌==◌ as str_eq}
use pipeline_azure.Prelude.{
  if◌then◌else◌, ap, ◌≡◌, refl, true, false, none, some, String, List, [], ◌∷◌, ◌++◌, arith,
  is_truthy, eq_iff,
}
use pipeline_azure.Storage.{LocalStorage, storage_laws}
use pipeline_azure.Http.{
  Request, Effect, resent, rejected, Client, TokenPair, Keys, refreshed, refresh_failed, authorize,
  get_auth_token, intercept_request, get_refresh_token, set_auth_token, set_refresh_token,
  clear_tokens, on_refreshed, reject_queue, on_refresh_failed, step, resend_queue,
}

-- A request sent again with a token: its header is set if it has headers, and nothing else changes.
abbrev pub sent_with : String → Request → Effect
sent_with token r =
    resent (if r.has_headers then record r { authorization = some (append "Bearer " token) } else r)

module _ (k : Keys) where
  new_token :
      (st : LocalStorage String) (t : TokenPair)
      → is_truthy t.access ≡ true
      → str_eq k.refresh_token_key k.token_key ≡ false
      → get_auth_token k (set_refresh_token k t.refresh (set_auth_token k t.access st))
        ≡ some t.access
  unfolding get_auth_token set_auth_token set_refresh_token
  new_token st t h d =
      grind (
        arith,
        storage_laws,
        eq_iff k.token_key k.token_key,
        eq_iff k.refresh_token_key k.token_key,
      )

  intercepted :
      (st : LocalStorage String) (token : String) (r : Request)
      → get_auth_token k st ≡ some token
      → resent (intercept_request k st (authorize token r)) ≡ sent_with token r
  unfolding intercept_request get_auth_token
  intercepted st token r e = ground (arith, e)

  resend_queue-sent_with :
      (st : LocalStorage String) (token : String) (rs : List Request)
      → get_auth_token k st ≡ some token
      → resend_queue k st token rs ≡ map (sent_with token) rs
  unfolding resend_queue
  resend_queue-sent_with st token [] e = refl
  resend_queue-sent_with st token (r ∷ rs) e =
      let first = intercepted st token r e in
      let rest = resend_queue-sent_with st token rs e in λ i. first i ∷ rest i

  cleared :
      (st : LocalStorage String)
      → (get_auth_token k (clear_tokens k st) ≡ none)
        × (get_refresh_token k (clear_tokens k st) ≡ none)
  unfolding get_auth_token get_refresh_token clear_tokens
  cleared st = (
    grind (arith, storage_laws, eq_iff k.token_key k.token_key),
    grind (arith, storage_laws, eq_iff k.refresh_token_key k.refresh_token_key),
  )

  -- The state after an answer to a refresh: it is over, and just the `effects` were added.
  pub record Ended (effects : List Effect) (before after : Client) : Type 0 where
    pub is_over : after.is_refreshing ≡ false
    pub is_idle : after.waiting ≡ none
    pub is_empty : after.failed_queue ≡ []
    pub log : after.log ≡ before.log ++ effects

  on_refreshed-Ended :
      (c : Client) (r : Request) (t : TokenPair)
      → is_truthy t.access ≡ true
      → str_eq k.refresh_token_key k.token_key ≡ false
      → Ended (map (sent_with t.access) (r ∷ c.failed_queue)) c (on_refreshed k c r t)
  unfolding on_refreshed
  on_refreshed-Ended c r t h d =
      let st = set_refresh_token k t.refresh (set_auth_token k t.access c.storage) in
      let held = new_token c.storage t h d in
      let first = intercepted st t.access r held in
      let rest = resend_queue-sent_with st t.access c.failed_queue held in
      record {
        is_over = refl;
        is_idle = refl;
        is_empty = refl;
        log = λ i. c.log ++ first i ∷ rest i;
      }

  on_refresh_failed-Ended :
      (c : Client) (r : Request)
      → Ended (map rejected c.failed_queue ++ rejected r ∷ []) c (on_refresh_failed k c r)
  unfolding on_refresh_failed
  on_refresh_failed-Ended c r = record {
    is_over = refl;
    is_idle = refl;
    is_empty = refl;
    log = ground (arith, append_assoc c.log (reject_queue c.failed_queue) (rejected r ∷ []));
  }

  -- While a request waits for a refresh, and the keys of the two tokens differ: an answer with an
  -- access token that is not blank stores that token, ends the refresh, empties the queue, and sends
  -- the waiting request and then each of the queue again, in its order and each once, with no other
  -- effect: one that has headers carries "Bearer " and the token, and is else as it was.
  pub step-refreshed :
      (c : Client) (r : Request) (t : TokenPair)
      → c.waiting ≡ some r
      → is_truthy t.access ≡ true
      → str_eq k.refresh_token_key k.token_key ≡ false
      → (get_auth_token k (step k c (refreshed t)).storage ≡ some t.access)
        × Ended (map (sent_with t.access) (r ∷ c.failed_queue)) c (step k c (refreshed t))
  unfolding step on_refreshed
  step-refreshed c r t w h d =
      let e : step k c (refreshed t) ≡ on_refreshed k c r t =
        ap (λ x. elim x [ none ↦ c | some q ↦ on_refreshed k c q t ]) w in
      rw e (new_token c.storage t h d, on_refreshed-Ended c r t h d)

  -- While a request waits for a refresh: if the refresh fails, both tokens are gone, the page of the
  -- login is opened, the refresh is over, the queue is empty, and the waiting request and those of
  -- the queue are rejected, and none is sent.
  step-refresh_failed :
      (c : Client) (r : Request)
      → c.waiting ≡ some r
      → (get_auth_token k (step k c refresh_failed).storage ≡ none)
        × (get_refresh_token k (step k c refresh_failed).storage ≡ none)
        × ((step k c refresh_failed).location ≡ some k.login_page)
        × Ended (map rejected c.failed_queue ++ rejected r ∷ []) c (step k c refresh_failed)
  unfolding step on_refresh_failed
  step-refresh_failed c r w =
      let e : step k c refresh_failed ≡ on_refresh_failed k c r =
        ap (λ x. elim x [ none ↦ c | some q ↦ on_refresh_failed k c q ]) w in
      rw e ((cleared c.storage).0, (cleared c.storage).1, refl, on_refresh_failed-Ended c r)
