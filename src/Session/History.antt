-- ===== src/Session/History.antt =====
-- relay/internal/session/session.go: a session driven by the events that its callers bring about, in
-- any order: reads of the pump, frames of the clients, clients that come and go.
use httpssh.Base.{ℕ, Bool, true, List, [], ◌∷◌, ◌++◌, Text}
use httpssh.Protocol.{ServerFrame}
use httpssh.Session.{
  Session, Subscriber, Pty, resize, write_input, publish_output, receive, kill, subscribe,
  remove_subscriber, modify,
}

pub data Event : Type 0 where
  -- The pump read a chunk, with the directories that it announces.
  publishes : (ℕ → Bool) → Text → List Text → ℕ → Event
  -- A websocket writer takes a frame.
  takes : ℕ → Event
  joins : Bool → Text → ℕ → Event
  leaves : ℕ → Event
  -- A parent context ends.
  ends : ℕ → Event
  inputs : Pty → ℕ → Text → Event
  resizes : Pty → ℕ → ℕ → ℕ → Event
  kills : Pty → Event
  renames : Text → Event

abbrev pub cancelled_context : Subscriber → Subscriber
cancelled_context c = record c { cancelled = true }

unfoldable pub apply : Session → Event → Session
apply s (publishes pick p paths now) = publish_output pick s p paths now
apply s (takes i) = receive s i
apply s (joins ended role now) = subscribe s ended role now
apply s (leaves i) = remove_subscriber s i
apply s (ends i) = record s { clients = modify i cancelled_context s.clients }
apply s (inputs pty now p) = (write_input pty now s p).0
apply s (resizes pty now cols rows) = (resize pty now s cols rows).0
apply s (kills pty) = (kill pty s).0
apply s (renames title) = record s { title = title }

unfoldable pub run : Session → List Event → Session
run s [] = s
run s (e ∷ es) = run (apply s e) es

-- The chunks of an event.
abbrev pub chunks_of : Event → List Text
chunks_of (publishes pick p paths now) = p ∷ []
chunks_of _ = []

abbrev pub chunks : List Event → List Text
chunks [] = []
chunks (e ∷ es) = chunks_of e ++ chunks es

abbrev pub IsResize : Event → Type 0
IsResize (resizes pty now cols rows) = Unit {0}
IsResize _ = ⊥

abbrev pub NoResize : List Event → Type 0
NoResize [] = Unit {0}
NoResize (e ∷ es) = (¬ IsResize e) × NoResize es

-- All frames that a subscriber was ever given, oldest first.
abbrev pub stream : Subscriber → List ServerFrame
stream c = c.received ++ c.out_queue
