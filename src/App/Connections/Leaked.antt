-- ===== src/App/Connections/Leaked.antt =====
-- useSignalRConnection: what still runs when its component is gone.
use pipeline_azure.Prelude.{
  ◌≡◌, refl, ap, ◌∙◌, true, not, Option, none, some, String, [], arith, is_truthy, ok,
}
use pipeline_azure.App.Connections.{
  Environment, Hook, mounted, register_for_push_notifications_async, all_hubs, started, all_start,
  invoke_fails, with_push_token, open_connections, register_and_open, setup_connections, clean_up,
  life,
}

started-all : (e : Environment) → all_start e ≡ true → started e ≡ all_hubs
started-all e h = ground (arith, h)

kept : (push : Option String) (h : Hook) → (with_push_token push h).running ≡ h.running
kept none h = refl
kept (some t) h = ground arith

opened :
    (e : Environment) (push : Option String) (h : Hook)
    → all_start e ≡ true
    → h.running ≡ []
    → ((open_connections e push h).running ≡ all_hubs)
      × ((open_connections e push h).is_connected ≡ not (invoke_fails e push))
opened e push h all none_yet = ground (arith, started-all e all, none_yet, all)

setup-eq :
    (e : Environment) (token : String) (push : Option String)
    → e.token ≡ ok (some token)
    → is_truthy token ≡ true
    → (register_for_push_notifications_async e).0 ≡ ok push
    → setup_connections e mounted
      ≡ open_connections e push (
          with_push_token push
            (record mounted { alerts = (register_for_push_notifications_async e).1 }))
unfolding setup_connections
setup-eq e token push found filled registered =
    rw (found, filled)
      (ap (λ r. register_and_open e (r, (register_for_push_notifications_async e).1) mounted)
        registered)

-- If somebody is logged in, the push token was asked for without an exception, and the three
-- connections start: after the component is gone all three still run, since the clean-up holds the
-- empty state of the first render. While it is there, the hook says that it is connected just if
-- the push token could be registered, although the connections run in either case.
life-running :
    (e : Environment) (token : String) (push : Option String)
    → e.token ≡ ok (some token)
    → is_truthy token ≡ true
    → (register_for_push_notifications_async e).0 ≡ ok push
    → all_start e ≡ true
    → ((life e).running ≡ all_hubs)
      × ((setup_connections e mounted).is_connected ≡ not (invoke_fails e push))
unfolding life setup_connections clean_up
life-running e token push found filled registered all =
    let shown = (register_for_push_notifications_async e).1 in
    let start = with_push_token push (record mounted { alerts = shown }) in
    let made = setup-eq e token push found filled registered in
    let (running, connected) = opened e push start all (kept push _) in
    (ap (λ h. h.running) made ∙ running, ap (λ h. h.is_connected) made ∙ connected)
