-- ===== src/Manager.antt =====
-- relay/internal/session/manager.go: the sessions of the relay process.
--
-- A method is one step; goroutines are the steps `pump_read`, `wait_exit` and `reap_once`, which may
-- come at any time. The locks are not modelled: where a method lets go of `m.mu` between two sections,
-- nothing is taken to come in between (but see Manager/Interleaved). So `wait_exit` sends the exit frame
-- and takes the session off the list at once, while output of the shell may come in between in the code.
-- What the host answers (the shell resolver, the pseudo-console, the clock, the random id) is an
-- argument. A session that is no longer in `byID` but that its goroutines still hold is in `unlisted`.
pub mod Registry
pub mod Kills
pub mod Renames
pub mod Shells
pub mod Reaper
pub mod System
pub mod Steps
pub mod Shutdown
pub mod Pumps
pub mod Interleaved
mod Data
mod Tests
unfoldable pub use Data.*
use httpssh.Base.{
  ℕ, ◌+◌, ◌*◌, Bool, true, false, not, ◌&&◌, ◌||◌, Option, none, some, List, [], ◌∷◌, ◌++◌, ℤ, pos,
  negsuc, non_positive, is_negative, to_nat, ltb, ◌==◌, if◌then◌else◌, length, map, Text, codes,
  str_eq, Table, lookup, insert, delete,
}
pub use httpssh.Errors.{Result, ok, err}
use httpssh.Protocol.{exit}
use httpssh.Ring.{new_ring_buffer}
use httpssh.Cwd.{CwdTracker, new_cwd_tracker, feed}
use httpssh.Session.{
  Session, SessionInfo, Subscriber, Pty, Error, invalid_dimensions, not_found, other, wrap,
  max_cols, max_rows, info, kill, publish_output, fanout, dropped, count_listed,
  resize_repaint_window,
}

-- The part of `Create` behind a successful spawn.
pub register : Manager → Session → Manager × Result Session
register m s =
    if m.closed
    then (calls m host_close, err (other (codes "manager: shutting down")))
    else (record m { by_id = insert s.id s m.by_id }, ok s)

create_spawned : Manager → Session → List Text → Option Error → Manager × Result Session
unfolding register
create_spawned m s args (some e) = (m, err (wrap (codes "manager: spawn") e))
create_spawned m s args none = register (calls m (host_opened s.shell args s.cols s.rows)) s

-- `NewManager` leaves no nil `Spawn`; calling one is a panic in Go.
pub answer_of : Option PtyFactory → Text → List Text → ℕ → ℕ → Option Error
answer_of none exe args cols rows = some (other (codes "nil Spawn"))
answer_of (some f) exe args cols rows = f exe args cols rows

create_resolved :
    Moment → Manager → Request → ℕ → ℕ → Result (Text × List Text) → Manager × Result Session
unfolding create_spawned answer_of new_session
create_resolved at m req cols rows (err e) = (m, err e)
create_resolved at m req cols rows (ok (exe, args)) =
    create_spawned m (new_session m.opts at req exe cols rows) args
      (answer_of m.opts.spawn exe args cols rows)

resolve : Option ShellResolver → Text → Result (Text × List Text)
resolve none shell = err (other (codes "manager: no shell resolver configured"))
resolve (some f) shell = f shell

unfoldable pub create : Moment → Manager → Request → Manager × Result Session
unfolding create_resolved resolve
create at m req =
    let cols = or_number req.cols 80 in
    let rows = or_number req.rows 24 in
    if ltb max_cols cols || ltb max_rows rows
    then (m, err invalid_dimensions)
    else create_resolved at m req cols rows (resolve m.opts.shells req.shell)

or_not_found {ℓ} : {A : Type ℓ} → Option A → Result A
or_not_found none = err not_found
or_not_found (some a) = ok a

unfoldable pub get : Manager → Text → Result Session
unfolding or_not_found
get m id = or_not_found (lookup id m.by_id)

unfoldable pub list : Manager → List SessionInfo
list m = map (λ e. info e.1) m.by_id

rename_found : Manager → Text → Text → Result Session → Manager × Result SessionInfo
rename_found m id title (err e) = (m, err e)
rename_found m id title (ok s) =
    let s' : Session = record s { title = title } in
    (record m { by_id = insert id s' m.by_id }, ok (info s'))

unfoldable pub rename : Manager → Text → Text → Manager × Result SessionInfo
unfolding get rename_found
rename m id title = rename_found m id title (get m id)

-- `Kill`: `pty` is the session's pseudo-console.
after_kill : Manager → Text → Session × Option Error → Manager × Option Error
after_kill m id (s, some e) = (record m { by_id = insert id s m.by_id }, some e)
after_kill m id (s, none) =
    (record m { by_id = delete id m.by_id; unlisted = s ∷ m.unlisted }, none)

kill_found : Pty → Manager → Text → Result Session → Manager × Option Error
unfolding after_kill kill
kill_found pty m id (err e) = (m, some e)
kill_found pty m id (ok s) = after_kill m id (kill pty s)

unfoldable pub kill_session : Pty → Manager → Text → Manager × Option Error
unfolding get kill_found
kill_session pty m id = kill_found pty m id (get m id)

unfoldable pub kill_all : (Text → Pty) → Table Session → List Session
unfolding kill
kill_all ptys [] = []
kill_all ptys ((id, s) ∷ m) = (kill (ptys id) s).0 ∷ kill_all ptys m

unfoldable pub shutdown : (Text → Pty) → Manager → Manager
unfolding kill_all
shutdown ptys m = if m.closed then m else record m {
  closed = true;
  by_id = [];
  unlisted = kill_all ptys m.by_id ++ m.unlisted;
  reaping = false;
}

-- `lastIO.Before(now.Add(-idleTimeout))`, for a session that is open and has no subscriber.
unfoldable pub is_stale : ℕ → Session → Bool
unfolding count_listed
is_stale now s =
    not (non_positive s.idle_timeout)
    && (not s.closed && count_listed s.clients == 0 && ltb (s.last_io + to_nat s.idle_timeout) now)

unfoldable pub candidates : ℕ → Table Session → List Session
unfolding is_stale
candidates now [] = []
candidates now ((id, s) ∷ m) =
    let rest = candidates now m in if is_stale now s then s ∷ rest else rest

unfoldable pub reap_each : (Text → Pty) → Manager → List Session → Manager
unfolding kill
reap_each ptys m [] = m
reap_each ptys m (s ∷ ss) =
    reap_each ptys
      (record m { by_id = delete s.id m.by_id; unlisted = (kill (ptys s.id) s).0 ∷ m.unlisted }) ss

unfoldable pub reap_once : (Text → Pty) → ℕ → Manager → Manager × ℕ
unfolding candidates reap_each
reap_once ptys now m = let stale = candidates now m.by_id in (reap_each ptys m stale, length stale)

-- `pump`: one read of the shell's output.
unfoldable pub pump_chunk : (ℕ → Bool) → ℕ → Session → Text → Session
unfolding publish_output feed
pump_chunk pick now s p =
    if length p == 0
    then s
    else let (t, paths) = feed s.cwd_tracker p in
      publish_output pick (record s { cwd_tracker = t }) p paths now

pump_in : (ℕ → Bool) → ℕ → Text → Text → List Session → List Session
unfolding pump_chunk
pump_in pick now id p [] = []
pump_in pick now id p (s ∷ ss) =
    let rest = pump_in pick now id p ss in
    if str_eq s.id id then pump_chunk pick now s p ∷ ss else s ∷ rest

-- A round of `pump`, for the session with this id, listed or not.
unfoldable pub pump_read : (ℕ → Bool) → ℕ → Manager → Text → Text → Manager
unfolding pump_chunk pump_in
pump_read pick now m id p = elim (lookup id m.by_id) [
  | none ↦ record m { unlisted = pump_in pick now id p m.unlisted }
  | some s ↦ record m { by_id = insert id (pump_chunk pick now s p) m.by_id }
]

-- The sections of `waitExit` on the session: the exit code, the last frame, the end of every
-- subscription, and the `done` channel.
abbrev pub mark_exited : Session → ℤ → Option Error → Session
mark_exited s code werr = record s { exit_code = some code; exit_err = werr; closed = true }

unfoldable pub drop_each : List Subscriber → List Subscriber
drop_each [] = []
drop_each (c ∷ cs) = (if c.listed then dropped c else c) ∷ drop_each cs

unfoldable pub exit_session : (ℕ → Bool) → Session → ℤ → Option Error → Session
unfolding fanout drop_each
exit_session pick s code werr =
    let s₁ = fanout pick (mark_exited s code werr) (exit code) in
    record s₁ { clients = drop_each s₁.clients; is_done = true }

exit_in : (ℕ → Bool) → Text → ℤ → Option Error → List Session → List Session
unfolding exit_session
exit_in pick id code werr [] = []
exit_in pick id code werr (s ∷ ss) =
    let rest = exit_in pick id code werr ss in
    if str_eq s.id id && not s.is_done then exit_session pick s code werr ∷ ss else s ∷ rest

-- `waitExit`, for the session with this id, listed or not.
unfoldable pub wait_exit : (ℕ → Bool) → Manager → Text → ℤ → Option Error → Manager
unfolding exit_session exit_in
wait_exit pick m id code werr = elim (lookup id m.by_id) [
  | none ↦ record m { unlisted = exit_in pick id code werr m.unlisted }
  | some s ↦ record m {
    by_id = delete id m.by_id;
    unlisted = exit_session pick s code werr ∷ m.unlisted;
  }
]
