-- ===== src/App/Signals/Once.antt =====
-- The signal hooks: how often a message is shown.
use pipeline_azure.Prelude.{
  ℕ, ◌≡◌, refl, sym, ap, ◌∙◌, arith, Bool, true, false, not, ◌&&◌, Option, none, some, String, List,
  [], ◌∷◌, ◌++◌, map, nat_eq, string_eq, ◌==◌, filter_by, if◌then◌else◌, Bool-cases, inl, inr,
}
use pipeline_azure.App.Signals.{
  on_all, Hook, cart_signal, order_signal, notification_signal, Message, item_added, item_removed,
  cart_cleared, cart_updated, order_created, order_status_changed, receive_notification, methods_of,
  scheduled, Component, Event, renders, unmounts, receives, on, off, run_effect, clean_up, off_all,
  method_of, delivered, same_connection, render, unmount, step, run, unmounted, Content,
}

-- The connection of the last render, unless the component is gone.
abbrev next_of : Event → Option (Option ℕ) → Option (Option ℕ)
next_of (renders connection) last = some connection
next_of unmounts last = none
next_of (receives connection m) last = last

unfoldable pub rendered : List Event → Option (Option ℕ) → Option (Option ℕ)
rendered [] last = last
rendered (e ∷ events) last = rendered events (next_of e last)

-- The hook that the message is for.
abbrev pub is_for : Hook → Message → Bool
is_for cart_signal (item_added title) = true
is_for cart_signal (item_removed id) = true
is_for cart_signal cart_cleared = true
is_for order_signal (order_created id) = true
is_for order_signal (order_status_changed id status) = true
is_for notification_signal (receive_notification title message body) = true
is_for _ _ = false

abbrev pub listens : Option (Option ℕ) → ℕ → Bool
listens none c = false
listens (some none) c = false
listens (some (some d)) c = d == c

abbrev registered : Hook → Option (Option ℕ) → List (ℕ × String)
registered hook none = []
registered hook (some last) = run_effect hook last []

abbrev pairs : ℕ → List String → List (ℕ × String)
pairs c names = map (λ name. (c, name)) names

abbrev remove_name : String → List String → List String
remove_name name names = filter_by (λ other. not (other == name)) names

abbrev remove_names : List String → List String → List String
remove_names [] names = names
remove_names (n ∷ ns) names = remove_names ns (remove_name n names)

off-pairs :
    (c : ℕ) (n : String) (names : List String)
    → off c n (pairs c names) ≡ pairs c (remove_name n names)
unfolding off
off-pairs c n [] = refl
off-pairs c n (m ∷ names) =
    let own : (c == c) ≡ true = ground arith in
    let rest = off-pairs c n names in
    elim (Bool-cases (m == n)) [
      | inl same ↦ rw (own, same) rest
      | inr other ↦ rw (own, other) (ap (λ hs. (c, m) ∷ hs) rest)
    ]

off_all-pairs :
    (c : ℕ) (ns names : List String)
    → off_all c ns (pairs c names) ≡ pairs c (remove_names ns names)
unfolding off_all
off_all-pairs c [] names = refl
off_all-pairs c (n ∷ ns) names =
    ap (off_all c ns) (off-pairs c n names) ∙ off_all-pairs c ns (remove_name n names)

clean_up-registered :
    (hook : Hook) (last : Option ℕ) → clean_up hook last (registered hook (some last)) ≡ []
unfolding on on_all
clean_up-registered hook none = refl
clean_up-registered cart_signal (some c) =
    off_all-pairs c (methods_of cart_signal) (methods_of cart_signal)
clean_up-registered order_signal (some c) =
    off_all-pairs c (methods_of order_signal) (methods_of order_signal)
clean_up-registered notification_signal (some c) =
    off_all-pairs c (methods_of notification_signal) (methods_of notification_signal)

same_connection-eq : (a b : Option ℕ) → same_connection a b ≡ true → a ≡ b
same_connection-eq none none h = refl
same_connection-eq none (some d) h = cc
same_connection-eq (some c) none h = cc
same_connection-eq (some c) (some d) h = ground arith

render-registered :
    (hook : Hook) (connection : Option ℕ) (deps : Option (Option ℕ))
    → render hook connection deps (registered hook deps) ≡ registered hook (some connection)
render-registered hook connection none = refl
render-registered hook connection (some last) =
    elim (Bool-cases (same_connection connection last)) [
      | inl same ↦
          rw same (ap (λ c. run_effect hook c []) (sym (same_connection-eq connection last same)))
      | inr other ↦ rw other (ap (run_effect hook connection) (clean_up-registered hook last))
    ]

unmount-registered :
    (hook : Hook) (deps : Option (Option ℕ)) → unmount hook deps (registered hook deps) ≡ []
unmount-registered hook none = refl
unmount-registered hook (some last) = clean_up-registered hook last

step-registered :
    (hook : Hook) (e : Event) (c : Component)
    → c.handlers ≡ registered hook c.deps
    → (step hook e c).handlers ≡ registered hook (step hook e c).deps
unfolding step
step-registered hook (renders connection) c h =
    ap (render hook connection c.deps) h ∙ render-registered hook connection c.deps
step-registered hook unmounts c h = ap (unmount hook c.deps) h ∙ unmount-registered hook c.deps
step-registered hook (receives connection m) c h = h

run-registered :
    (hook : Hook) (events : List Event) (c : Component)
    → c.handlers ≡ registered hook c.deps
    → (run hook events c).handlers ≡ registered hook (rendered events c.deps)
unfolding run step rendered
run-registered hook [] c h = h
run-registered hook (renders connection ∷ events) c h =
    run-registered hook events _ (step-registered hook (renders connection) c h)
run-registered hook (unmounts ∷ events) c h =
    run-registered hook events _ (step-registered hook unmounts c h)
run-registered hook (receives connection m ∷ events) c h =
    run-registered hook events _ (step-registered hook (receives connection m) c h)

-- What handlers of the names show of the message.
abbrev shown_by : Message → List String → List Content
shown_by m [] = []
shown_by m (n ∷ names) =
    let rest = shown_by m names in if n == method_of m then scheduled m ++ rest else rest

delivered-pairs :
    (c d : ℕ) (m : Message) (names : List String)
    → delivered c m (pairs d names) ≡ (if d == c then shown_by m names else [])
unfolding delivered
delivered-pairs c d m [] = elim (Bool-cases (d == c)) [
  | inl same ↦ rw same refl
  | inr other ↦ rw other refl
]
delivered-pairs c d m (n ∷ names) =
    let rest = delivered-pairs c d m names in
    elim (Bool-cases (d == c)) [
      | inl same ↦ ground (arith, rest, same)
      | inr other ↦ ground (arith, rest, other)
    ]

shown_by-methods_of :
    (hook : Hook) (m : Message)
    → shown_by m (methods_of hook) ≡ (if is_for hook m then scheduled m else [])
shown_by-methods_of cart_signal (item_added title) = refl
shown_by-methods_of cart_signal (item_removed id) = refl
shown_by-methods_of cart_signal cart_cleared = refl
shown_by-methods_of cart_signal cart_updated = refl
shown_by-methods_of cart_signal (order_created id) = refl
shown_by-methods_of cart_signal (order_status_changed id status) = refl
shown_by-methods_of cart_signal (receive_notification title message body) = refl
shown_by-methods_of order_signal (item_added title) = refl
shown_by-methods_of order_signal (item_removed id) = refl
shown_by-methods_of order_signal cart_cleared = refl
shown_by-methods_of order_signal cart_updated = refl
shown_by-methods_of order_signal (order_created id) = refl
shown_by-methods_of order_signal (order_status_changed id status) = refl
shown_by-methods_of order_signal (receive_notification title message body) = refl
shown_by-methods_of notification_signal (item_added title) = refl
shown_by-methods_of notification_signal (item_removed id) = refl
shown_by-methods_of notification_signal cart_cleared = refl
shown_by-methods_of notification_signal cart_updated = refl
shown_by-methods_of notification_signal (order_created id) = refl
shown_by-methods_of notification_signal (order_status_changed id status) = refl
shown_by-methods_of notification_signal (receive_notification title message body) = refl

registered-pairs :
    (hook : Hook) (d : ℕ) → registered hook (some (some d)) ≡ pairs d (methods_of hook)
unfolding on on_all
registered-pairs cart_signal d = refl
registered-pairs order_signal d = refl
registered-pairs notification_signal d = refl

delivered-registered :
    (hook : Hook) (deps : Option (Option ℕ)) (c : ℕ) (m : Message)
    → delivered c m (registered hook deps)
      ≡ (if listens deps c && is_for hook m then scheduled m else [])
unfolding delivered
delivered-registered hook none c m = refl
delivered-registered hook (some none) c m = refl
delivered-registered hook (some (some d)) c m =
    let all =
      ap (delivered c m) (registered-pairs hook d) ∙ delivered-pairs c d m (methods_of hook) in
    elim (Bool-cases (d == c)) [
      | inl same ↦ ground (arith, all, same) ∙ shown_by-methods_of hook m ∙ ground (arith, same)
      | inr other ↦ ground (arith, all, other)
    ]

-- After any renders, messages and the end of a component with one of the three hooks: a message on a
-- connection shows its notification once, if the last render had this connection and the hook is the
-- one for the message; else it shows nothing.
pub receive-run_hook :
    (hook : Hook) (events : List Event) (connection : ℕ) (m : Message)
    → let c = run hook events unmounted in
      (step hook (receives connection m) c).notifications
      ≡ c.notifications
        ++ (if listens (rendered events none) connection && is_for hook m then scheduled m else [])
unfolding step
receive-run_hook hook events connection m =
    let c = run hook events unmounted in
    ap (λ new. c.notifications ++ new)
      (ap (delivered connection m) (run-registered hook events unmounted refl)
        ∙ delivered-registered hook (rendered events none) connection m)
