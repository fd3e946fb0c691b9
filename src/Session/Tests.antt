-- ===== src/Session/Tests.antt =====
-- relay/internal/session/session.go: runs on concrete sessions.
use mathlib.Core.List.{Perm}
use httpssh.Base.{
  replicate, ◌≡◌, refl, arith, true, false, some, List, [], ◌∷◌, ◌++◌, map, pos, length, get_elem?,
  codes,
}
use httpssh.Protocol.{out, replay}
use httpssh.Ring.{snapshot, capacity}
use httpssh.Ring.Contents.{take_last, new_ring_buffer-IsValid}
use httpssh.Session.{Subscriber, PtyCall, pty_write, pty_close, subscribe}
use httpssh.Session.History.{Event, publishes, takes, joins, inputs, resizes, run, chunks, stream}
use httpssh.Session.Delivery.{run-subscribe, shown, shown-scrollback}
use httpssh.Session.Keeping.{ReceivedAt, queued, run-ReceivedAt}
use httpssh.Session.Conformance.{run-AllConform}
use httpssh.Session.Stream.{AllConform}
use httpssh.Session.Sections.{
  write_checked, Shared, Section, begins_write, begins_kill, calls_pty, commits, whole,
  run_sections,
}
use httpssh.Session.Sections.Killed.{pending, run_sections-begin_kill}
use httpssh.Fixtures.{ready_pty, first_ready, session_a}

abbrev history : List Event
history =
    publishes first_ready (codes "hello") [] 60
    ∷ takes 0
    ∷ inputs ready_pty 61 (codes "x")
    ∷ publishes first_ready (codes " you") [] 62
    ∷ []

run-subscribe_example :
    (c : Subscriber) × (get_elem?
        (run (subscribe session_a false [] 50) history).clients
        (length session_a.clients)
      ≡ some c)
    × (c.listed ≡ true
        → stream c ≡ replay (snapshot session_a.scrollback) ∷ map out (chunks history))
run-subscribe_example =
    run-subscribe session_a false [] 50 history refl refl
      ((λ h. h), ((λ h. h), ((λ h. h), ((λ h. h), tt))))

shown-scrollback_example :
    (c : Subscriber) × (get_elem?
        (run (subscribe session_a false [] 50) history).clients
        (length session_a.clients)
      ≡ some c)
    × (c.listed ≡ true
        → snapshot (run (subscribe session_a false [] 50) history).scrollback
          ≡ take_last (capacity session_a.scrollback) (shown (stream c)))
shown-scrollback_example =
    shown-scrollback session_a false [] 50 history refl refl
      ((λ h. h), ((λ h. h), ((λ h. h), ((λ h. h), tt)))) (new_ring_buffer-IsValid (pos 8))

run-ReceivedAt_example :
    ReceivedAt 0 (replay (snapshot session_a.scrollback) ∷ map out (chunks history)) (
      (run
        (run (subscribe session_a false [] 50) history)
        (replicate (queued 0 1 history) (takes 0))).clients)
run-ReceivedAt_example =
    run-ReceivedAt session_a [] 50 history refl refl
      ((λ h. h), ((λ h. h), ((λ h. h), ((λ h. h), tt))))
      (omega arith, (tt, (tt, (omega arith, tt))))

abbrev busy : List Event
busy = resizes ready_pty 55 100 30 ∷ joins false [] 56 ∷ history

run-AllConform_example : AllConform (run session_a busy).clients
run-AllConform_example = run-AllConform busy session_a tt

-- A write has passed its check when the session is killed; another one begins after that.
abbrev writing_a : Shared
writing_a = record { session = session_a; flights = write_checked (codes "x") ∷ [] }

abbrev sections : List Section
sections =
    calls_pty ready_pty 0
    ∷ begins_write (codes "y")
    ∷ whole (resizes ready_pty 80 100 30)
    ∷ calls_pty ready_pty 1
    ∷ commits 81 0
    ∷ []

run_sections-begin_kill_example :
    ((run_sections writing_a (begins_kill ∷ sections)).session.closed ≡ true)
    × ((calls : List PtyCall) × ((run_sections writing_a (begins_kill ∷ sections)).session.pty_calls
          ≡ session_a.pty_calls ++ calls)
        × Perm
            (calls ++ pending (run_sections writing_a (begins_kill ∷ sections)).flights)
            (pty_write (codes "x") ∷ pty_close ∷ []))
run_sections-begin_kill_example = run_sections-begin_kill writing_a sections refl
