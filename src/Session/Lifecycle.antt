-- ===== src/Session/Lifecycle.antt =====
-- relay/internal/session/session.go: what every event keeps of a closed session.
use httpssh.Base.{◌≡◌, true, arith}
use httpssh.Session.{
  Session, resize, publish_output, suppress, receive, kill, subscribe, remove_subscriber,
  write_input,
}
use httpssh.Session.History.{Event, publishes, apply}

-- Nothing opens a closed session again.
pub apply-closed : (e : Event) (s : Session) → s.closed ≡ true → (apply s e).closed ≡ true
unfolding apply publish_output suppress receive remove_subscriber subscribe write_input resize kill
apply-closed (publishes pick p paths now) s h = ground arith
apply-closed _ s h = ground arith

-- A closed session does not call the pseudo-console.
pub apply_quiet : (e : Event) (s : Session) → s.closed ≡ true → (apply s e).pty_calls ≡ s.pty_calls
unfolding apply publish_output suppress receive remove_subscriber subscribe write_input resize kill
apply_quiet (publishes pick p paths now) s h = ground arith
apply_quiet _ s h = ground arith
