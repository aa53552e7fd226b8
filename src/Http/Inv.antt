-- ===== src/Http/Inv.antt =====
-- The response interceptor: what holds between any two of its events.
use pipeline_azure.Prelude.{
  ◌&&◌, not, if◌then◌else◌, is_truthy?, ℕ, ◌≡◌, refl, Bool, true, false, Option, none, some, String,
  List, [], ◌∷◌, arith, All, All-append,
}
use pipeline_azure.Http.{
  get_refresh_token, get_auth_token, is_unauthorized, is_truthy?, ℕ, Request, Client, TokenPair,
  Keys, Event, call, fail, refreshed, refresh_failed, start_refresh, on_error, on_refreshed,
  on_refresh_failed, step, run,
}

abbrev IsFresh : Request → Type 0
IsFresh r = r.retry ≡ false

-- A refresh is under way exactly while a request waits for it, and that request is marked; the
-- queue is empty while none is under way, and holds requests that are not marked.
pub record Inv (c : Client) : Type 0 where
  pub idle : c.is_refreshing ≡ false → (c.waiting ≡ none) × (c.failed_queue ≡ [])
  pub busy : c.is_refreshing ≡ true → (r : Request) × (c.waiting ≡ some r) × (r.retry ≡ true)
  pub queued : All IsFresh c.failed_queue

Inv-if :
    (b : Bool) (x y : Client) → (b ≡ true → Inv x) → (b ≡ false → Inv y) → Inv (if b then x else y)
Inv-if true x y f g = f refl
Inv-if false x y f g = g refl

Inv-option :
    (c : Client) (w : Option Request) (f : Request → Client)
    → Inv c
    → ((r : Request) → Inv (f r))
    → Inv (elim w [ none ↦ c | some r ↦ f r ])
Inv-option c none f v g = v
Inv-option c (some r) f v g = g r

marked-IsFresh : (b : Bool) (r : Request) → (b && not r.retry) ≡ true → r.retry ≡ false
marked-IsFresh b r h = ground arith

module _ (k : Keys) where
  start_refresh-Inv :
      (c : Client) (r : Request) (refresh access : Option String)
      → r.retry ≡ true
      → c.is_refreshing ≡ false
      → Inv c
      → Inv (start_refresh k c r refresh access)
  unfolding start_refresh
  start_refresh-Inv c r refresh access marked free v =
      Inv-if (is_truthy? refresh && is_truthy? access) _ _
        (λ _. record { idle = λ h. ground arith; busy = λ _. (r, refl, marked); queued = v.queued })
        (λ _. record { idle = λ _. v.idle free; busy = λ h. ground arith; queued = v.queued })

  fail-Inv : (c : Client) (status : Option ℕ) (r : Request) → Inv c → Inv (on_error k c status r)
  unfolding on_error
  fail-Inv c status r v =
      Inv-if (is_unauthorized status && not r.retry) _ _
        (λ h.
          Inv-if c.is_refreshing _ _
            (λ busy. record {
              idle = λ free. ground arith;
              busy = v.busy;
              queued =
                  All-append IsFresh c.failed_queue (r ∷ []) v.queued
                    (marked-IsFresh (is_unauthorized status) r h, tt);
            })
            (λ free.
              start_refresh-Inv c (record r { retry = true }) (get_refresh_token k c.storage)
                (get_auth_token k c.storage) refl free v))
        (λ _. record { idle = v.idle; busy = v.busy; queued = v.queued })

  refreshed-Inv : (c : Client) (t : TokenPair) → Inv c → Inv (step k c (refreshed t))
  unfolding step on_refreshed
  refreshed-Inv c t v =
      Inv-option c c.waiting _ v
        λ r. record { idle = λ _. (refl, refl); busy = λ f. ground arith; queued = tt }

  refresh_failed-Inv : (c : Client) → Inv c → Inv (step k c refresh_failed)
  unfolding step on_refresh_failed
  refresh_failed-Inv c v =
      Inv-option c c.waiting _ v
        λ r. record { idle = λ _. (refl, refl); busy = λ f. ground arith; queued = tt }

  pub step-Inv : (c : Client) (e : Event) → Inv c → Inv (step k c e)
  unfolding step
  step-Inv c (call r) v = record { idle = v.idle; busy = v.busy; queued = v.queued }
  step-Inv c (fail status r) v = fail-Inv c status r v
  step-Inv c (refreshed t) v = refreshed-Inv c t v
  step-Inv c refresh_failed v = refresh_failed-Inv c v

  pub run-Inv : (c : Client) (events : List Event) → Inv c → Inv (run k c events)
  unfolding run
  run-Inv c [] v = v
  run-Inv c (e ∷ events) v = run-Inv (step k c e) events (step-Inv c e v)
