-- ===== src/Session.antt =====
-- relay/internal/session/session.go: one running shell with its subscribers and its scrollback.
--
-- A method is one step. `Resize` and `WriteInput` let go of `s.mu` between their check, the call of the
-- pseudo-console and their update, and `Kill` before its call: here their sections follow at once, and
-- in Sections anything may come in between. Times are nanoseconds, and a zero `time.Time` is `none`.
-- What `time.Now` and the pseudo-console (`conpty.PTY`) answer are arguments. A subscriber's address is
-- its place in `clients`, which holds every subscriber there ever was; `listed` says that it is a key of
-- `s.subs`.
pub mod Resize
pub mod Subscribers
pub mod History
pub mod Delivery
pub mod Keeping
pub mod Reach
pub mod Lifecycle
pub mod Sections
pub mod Conformance
pub mod Stream
pub mod Sound
mod Data
mod Tests
unfoldable pub use Data.*
use httpssh.Base.{
  ℕ, zero, suc, ◌+◌, ◌*◌, ◌/◌, Bool, true, false, not, ◌&&◌, ◌||◌, Option, none, some, List, [],
  ◌∷◌, ◌++◌, ℤ, to_nat, ltb, leb, ◌==◌, if◌then◌else◌, length, Text, codes, str_eq, contains, count,
}
use httpssh.Cwd.{CwdTracker}
pub use httpssh.Errors.{
  Error, invalid_dimensions, session_closed, not_found, invalid_shell, other, wrap,
}
use httpssh.Protocol.{ServerFrame, replay, out}
use httpssh.Ring.{RingBuffer, write, snapshot}

abbrev call : Session → PtyCall → Session
call s c = record s { pty_calls = s.pty_calls ++ (c ∷ []) }

abbrev pub bad_dimensions : ℕ → ℕ → Bool
bad_dimensions cols rows = ltb cols 1 || ltb max_cols cols || ltb rows 1 || ltb max_rows rows

-- The last section of `Resize`, once the pseudo-console has answered.
resize_commit : Session → ℕ → ℕ → Option Error → ℕ → Session × Option Error
resize_commit s cols rows (some e) now = (s, some e)
resize_commit s cols rows none now = (
  record s { cols = cols; rows = rows; resize_repaint_until = some (now + resize_repaint_window) },
  none,
)

unfoldable pub resize : Pty → ℕ → Session → ℕ → ℕ → Session × Option Error
unfolding resize_commit
resize pty now s cols rows =
    if bad_dimensions cols rows
    then (s, some invalid_dimensions)
    else if s.closed
    then (s, some session_closed)
    else if s.cols == cols && s.rows == rows
    then (s, none)
    else resize_commit (call s (pty_resize cols rows)) cols rows (pty.resize_answer cols rows) now

write_commit : Session → Option Error → ℕ → Session × Option Error
write_commit s (some e) now = (s, some e)
write_commit s none now = (record s { last_io = now }, none)

unfoldable pub write_input : Pty → ℕ → Session → Text → Session × Option Error
unfolding write_commit
write_input pty now s p =
    if s.closed
    then (s, some session_closed)
    else write_commit (call s (pty_write p)) (pty.write_answer p) now

abbrev pub scrollback_snapshot : Session → Text
scrollback_snapshot s = snapshot s.scrollback

-- The escape sequences of a repaint: hide the cursor, home, show it, erase a line (twice).
unfoldable pub looks_like_repaint : Text → Bool
unfolding contains count
looks_like_repaint p =
    if length p == 0
    then false
    else contains p (0x1b ∷ codes "[?25l")
      && contains p (0x1b ∷ codes "[H")
      && contains p (0x1b ∷ codes "[?25h")
      && leb 2 (count p (0x1b ∷ codes "[K"))

-- `suppressResizeRepaintLocked`: whether the chunk is dropped, beside the session with an expired
-- window taken away.
unfoldable pub suppress : Session → Text → ℕ → Session × Bool
suppress s p now = elim s.resize_repaint_until [
  | none ↦ (s, false)
  | some until ↦
      if ltb until now
      then (record s { resize_repaint_until = none }, false)
      else (s, looks_like_repaint p)
]

-- `!s.resizeRepaintUntil.IsZero() && now.Before(s.resizeRepaintUntil)`
abbrev pub in_window : Option ℕ → ℕ → Bool
in_window none now = false
in_window (some until) now = ltb now until

-- The subscriber taken off the list, and its context cancelled.
abbrev pub dropped : Subscriber → Subscriber
dropped c = record c { listed = false; cancelled = true }

abbrev pub enqueued : ServerFrame → Subscriber → Subscriber
enqueued f c = record c { out_queue = c.out_queue ++ (f ∷ []) }

abbrev pub has_room : Subscriber → Bool
has_room c = ltb (length c.out_queue) default_subscriber_queue

-- The `select` of `publishOutput`. Where both the channel and `ctx.Done()` are ready, `first` says
-- which of the two is taken.
unfoldable pub deliver : Bool → ServerFrame → Subscriber → Subscriber
deliver first f c = if has_room c && (first || not c.cancelled) then enqueued f c else dropped c

-- A subscriber that came less than two windows ago.
abbrev pub is_fresh : ℕ → Subscriber → Bool
is_fresh now c = ltb now (c.subscribed_at + 2 * resize_repaint_window)

pub publish_to : Bool → ServerFrame → ℕ → Bool → Subscriber → Subscriber
unfolding deliver
publish_to during_resize f now first c =
    if not c.listed then c else if during_resize && is_fresh now c then c else deliver first f c

-- The loop over the subscribers; `pick` has the choice of each `select`, by the subscriber's place.
unfoldable pub publish_each :
    (ℕ → Bool) → Bool → ServerFrame → ℕ → ℕ → List Subscriber → List Subscriber
unfolding publish_to
publish_each pick during_resize f now i [] = []
publish_each pick during_resize f now i (c ∷ cs) =
    publish_to during_resize f now (pick i) c ∷ publish_each pick during_resize f now (i + 1) cs

abbrev pub last_or : Text → List Text → Text
last_or d [] = d
last_or d (x ∷ xs) = last_or x xs

unfoldable pub publish_output : (ℕ → Bool) → Session → Text → List Text → ℕ → Session
unfolding suppress publish_each
publish_output pick s p cwd_paths now =
    let (s₁, drop_frame) = suppress s p now in
    let during_resize = in_window s₁.resize_repaint_until now in
    let s₂ = record s₁ { last_io = now; cwd = last_or s₁.cwd cwd_paths } in
    if drop_frame then s₂ else record s₂ {
      scrollback = write s₁.scrollback p;
      clients = publish_each pick during_resize (out p) now 0 s₁.clients;
    }

-- The websocket writer takes the oldest frame of subscriber `i`.
abbrev take_frame : Subscriber → List ServerFrame → Subscriber
take_frame c [] = c
take_frame c (f ∷ fs) = record c { out_queue = fs; received = c.received ++ (f ∷ []) }

unfoldable pub modify : ℕ → (Subscriber → Subscriber) → List Subscriber → List Subscriber
modify i f [] = []
modify zero f (c ∷ cs) = f c ∷ cs
modify (suc i) f (c ∷ cs) = c ∷ modify i f cs

unfoldable pub receive : Session → ℕ → Session
unfolding modify
receive s i = record s { clients = modify i (λ c. take_frame c c.out_queue) s.clients }

-- `Kill`
unfoldable pub kill : Pty → Session → Session × Option Error
kill pty s =
    if s.closed then (s, none) else (call (record s { closed = true }) pty_close, pty.close_answer)

-- `Subscribe`: the new subscriber's place is the length of `clients` before. `ended` says that the
-- parent context is already done.
unfoldable pub subscribe : Session → Bool → Text → ℕ → Session
subscribe s ended role now =
    let fresh : Subscriber = record {
      out_queue = [];
      received = [];
      cancelled = ended;
      role = role;
      subscribed_at = now;
      listed = false;
    } in
    if s.closed
    then record s { clients = s.clients ++ (record fresh { cancelled = true } ∷ []) }
    else record s {
      clients =
          s.clients
          ++ (record fresh { out_queue = replay (snapshot s.scrollback) ∷ []; listed = true } ∷ []);
    }

-- `removeSubscriber`, which is also the function that `Subscribe` returns.
unfoldable pub remove_subscriber : Session → ℕ → Session
unfolding modify
remove_subscriber s i = record s { clients = modify i dropped s.clients }

-- `fanout`: a subscriber whose context is done may or may not get the frame.
pub fanout_to : Bool → ServerFrame → Subscriber → Subscriber
fanout_to first f c =
    if not c.listed
    then c
    else if has_room c && (first || not c.cancelled)
    then enqueued f c
    else if c.cancelled
    then c
    else dropped c

unfoldable pub fanout_each : (ℕ → Bool) → ServerFrame → ℕ → List Subscriber → List Subscriber
unfolding fanout_to
fanout_each pick f i [] = []
fanout_each pick f i (c ∷ cs) = fanout_to (pick i) f c ∷ fanout_each pick f (i + 1) cs

unfoldable pub fanout : (ℕ → Bool) → Session → ServerFrame → Session
unfolding fanout_each
fanout pick s f = record s { clients = fanout_each pick f 0 s.clients }

-- `ExitState`
abbrev pub exit_state : Session → Option ℤ × Option Error
exit_state s = (s.exit_code, s.exit_err)
