-- ===== src/Http/Settled.antt =====
-- The response interceptor: every failed request is answered once or waits.
use pipeline_azure.Prelude.{
  ap, ◌&&◌, not, is_truthy?, ℕ, ◌+◌, ◌≡◌, refl, Bool, true, false, Option, none, some, String, List,
  [], ◌∷◌, ◌++◌, arith, nat_eq, ◌==◌, if◌then◌else◌,
}
use pipeline_azure.Storage.{LocalStorage}
use pipeline_azure.Http.{
  or_blank, set_auth_token, set_refresh_token, get_refresh_token, get_auth_token, is_unauthorized,
  is_truthy?, Request, Effect, called, resent, rejected, posted_refresh, Client, TokenPair, Keys,
  Event, call, fail, refreshed, refresh_failed, authorize, intercept_request, resend_queue,
  reject_queue, start_refresh, on_error, on_refreshed, on_refresh_failed, step, run,
}
use pipeline_azure.Http.Inv.{Inv, step-Inv}

module _ (i : ℕ) where
  abbrev one_if : Bool → ℕ
  one_if b = if b then 1 else 0

  -- How often the request with the id `i` is among some.
  unfoldable pub among : List Request → ℕ
  among [] = 0
  among (r ∷ rs) = one_if (r.id == i) + among rs

  unfoldable pub waits : Option Request → ℕ
  waits none = 0
  waits (some r) = one_if (r.id == i)

  -- How often it was sent again or rejected.
  unfoldable pub settled : List Effect → ℕ
  settled [] = 0
  settled (called r ∷ log) = settled log
  settled (posted_refresh a b ∷ log) = settled log
  settled (resent r ∷ log) = one_if (r.id == i) + settled log
  settled (rejected r ∷ log) = one_if (r.id == i) + settled log

  -- How often it failed.
  unfoldable pub failures : List Event → ℕ
  failures [] = 0
  failures (fail status r ∷ events) = one_if (r.id == i) + failures events
  failures (_ ∷ events) = failures events

  among-append : (xs ys : List Request) → among (xs ++ ys) ≡ among xs + among ys
  unfolding among
  among-append [] ys = omega arith
  among-append (r ∷ xs) ys = omega (arith, among-append xs ys)

  settled-append : (xs ys : List Effect) → settled (xs ++ ys) ≡ settled xs + settled ys
  unfolding settled
  settled-append [] ys = omega arith
  settled-append (called r ∷ xs) ys = settled-append xs ys
  settled-append (posted_refresh a b ∷ xs) ys = settled-append xs ys
  settled-append (resent r ∷ xs) ys = omega (arith, settled-append xs ys)
  settled-append (rejected r ∷ xs) ys = omega (arith, settled-append xs ys)

  settled-reject_queue : (rs : List Request) → settled (reject_queue rs) ≡ among rs
  unfolding settled among
  settled-reject_queue [] = refl
  settled-reject_queue (r ∷ rs) = omega (arith, settled-reject_queue rs)

  settled-rejected :
      (log : List Effect) (rs : List Request) (r : Request)
      → settled (log ++ reject_queue rs ++ rejected r ∷ [])
        ≡ settled log + (among rs + one_if (r.id == i))
  unfolding settled
  settled-rejected log rs r = omega (
    arith,
    settled-append (log ++ reject_queue rs) (rejected r ∷ []),
    settled-append log (reject_queue rs),
    settled-reject_queue rs,
  )

  module _ (k : Keys) where
    same_id : (st : LocalStorage String) (r : Request) → (intercept_request k st r).id ≡ r.id
    unfolding intercept_request
    same_id st r = ground arith

    resent-id :
        (st : LocalStorage String) (token : String) (r : Request)
        → (intercept_request k st (authorize token r)).id ≡ r.id
    unfolding intercept_request
    resent-id st token r = ground arith

    settled-resend_queue :
        (st : LocalStorage String) (token : String) (rs : List Request)
        → settled (resend_queue k st token rs) ≡ among rs
    unfolding settled among resend_queue
    settled-resend_queue st token [] = refl
    settled-resend_queue st token (r ∷ rs) =
        ground (arith, settled-resend_queue st token rs, resent-id st token r)

    unfoldable pub open_requests : Client → ℕ
    open_requests c = among c.failed_queue + waits c.waiting

    -- What a client has answered and what it still owes.
    unfoldable pub account : Client → ℕ
    unfolding open_requests
    account c = settled c.log + open_requests c

    account-if :
        (b : Bool) (x y : Client) (n : ℕ)
        → (b ≡ true → account x ≡ n)
        → (b ≡ false → account y ≡ n)
        → account (if b then x else y) ≡ n
    account-if true x y n f g = f refl
    account-if false x y n f g = g refl

    account-option :
        (c : Client) (w : Option Request) (f : Request → Client)
        → c.waiting ≡ w
        → ((r : Request) → waits c.waiting ≡ one_if (r.id == i) → account (f r) ≡ account c)
        → account (elim w [ none ↦ c | some r ↦ f r ]) ≡ account c
    unfolding waits
    account-option c none f e g = refl
    account-option c (some r) f e g = g r (ap waits e)

    start_refresh-account :
        (c : Client) (r : Request) (refresh access : Option String)
        → c.waiting ≡ none
        → account (start_refresh k c r refresh access) ≡ account c + one_if (r.id == i)
    unfolding start_refresh account open_requests waits settled
    start_refresh-account c r refresh access free =
        account-if (is_truthy? refresh && is_truthy? access) _ _ _
          (λ _. ground (
            arith,
            free,
            settled-append c.log (posted_refresh (or_blank access) (or_blank refresh) ∷ []),
          ))
          (λ _. omega (arith, settled-append c.log (rejected r ∷ [])))

    on_error-account :
        (c : Client) (status : Option ℕ) (r : Request)
        → Inv c
        → account (on_error k c status r) ≡ account c + one_if (r.id == i)
    unfolding on_error account open_requests settled among
    on_error-account c status r v =
        account-if (is_unauthorized status && not r.retry) _ _ _
          (λ _.
            account-if c.is_refreshing _ _ _
              (λ _. omega (arith, among-append c.failed_queue (r ∷ [])))
              (λ free.
                start_refresh-account c (record r { retry = true }) (get_refresh_token k c.storage)
                  (get_auth_token k c.storage) (v.idle free).0))
          (λ _. omega (arith, settled-append c.log (rejected r ∷ [])))

    refreshed-account : (c : Client) (t : TokenPair) → account (step k c (refreshed t)) ≡ account c
    unfolding step on_refreshed account open_requests settled among waits
    refreshed-account c t =
        let st = set_refresh_token k t.refresh (set_auth_token k t.access c.storage) in
        account-option c c.waiting _ refl λ r e. ground (
          arith,
          e,
          resent-id st t.access r,
          settled-resend_queue st t.access c.failed_queue,
          settled-append c.log (
              resent (intercept_request k st (authorize t.access r))
              ∷ resend_queue k st t.access c.failed_queue),
        )

    refresh_failed-account : (c : Client) → account (step k c refresh_failed) ≡ account c
    unfolding step on_refresh_failed account open_requests settled among waits
    refresh_failed-account c =
        account-option c c.waiting _ refl
          λ r e. omega (arith, e, settled-rejected c.log c.failed_queue r)

    step-account :
        (c : Client) (e : Event) → Inv c → account (step k c e) ≡ account c + failures (e ∷ [])
    unfolding step account failures settled
    step-account c (call r) v =
        ground (arith, settled-append c.log (called (intercept_request k c.storage r) ∷ []))
    step-account c (fail status r) v = omega (arith, on_error-account c status r v)
    step-account c (refreshed t) v = omega (arith, refreshed-account c t)
    step-account c refresh_failed v = omega (arith, refresh_failed-account c)

    failures-run :
        (e : Event) (events : List Event)
        → failures (e ∷ events) ≡ failures (e ∷ []) + failures events
    unfolding failures
    failures-run (call r) events = omega arith
    failures-run (fail status r) events = omega arith
    failures-run (refreshed t) events = omega arith
    failures-run refresh_failed events = omega arith

    -- Whatever events arrive, in whatever order, from a client between two events: a request is sent
    -- again or rejected once for each time it failed, or it is still in the queue or waiting for its
    -- refresh. None is forgotten, and none is answered twice.
    pub settled-run :
        (c : Client) (events : List Event)
        → Inv c
        → account (run k c events) ≡ account c + failures events
    unfolding run failures
    settled-run c [] v = omega arith
    settled-run c (e ∷ events) v = omega (
      arith,
      settled-run (step k c e) events (step-Inv k c e v),
      step-account c e v,
      failures-run e events,
    )
