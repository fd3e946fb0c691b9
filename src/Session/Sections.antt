-- ===== src/Session/Sections.antt =====
-- relay/internal/session/session.go: `WriteInput`, `Resize` and `Kill` by their sections.
--
-- Each looks at the session under `s.mu`, lets go of it to call the pseudo-console, and the first two
-- then take it again. Here anything may come in between. What a method that has passed its check has yet
-- to do is a flight; the session keeps theirs in the order in which they began.
pub mod Killed
pub mod Alone
use httpssh.Base.{
  ℕ, zero, suc, ◌+◌, Bool, true, false, not, ◌&&◌, ◌||◌, Option, none, some, List, [], ◌∷◌, ◌++◌,
  ◌==◌, if◌then◌else◌, Text,
}
use httpssh.Session.{
  Session, Pty, PtyCall, pty_write, pty_resize, pty_close, Error, bad_dimensions,
  resize_repaint_window,
}
use httpssh.Session.History.{Event, apply}

pub data Flight : Type 0 where
  -- Before the call of the pseudo-console.
  write_checked : Text → Flight
  resize_checked : ℕ → ℕ → Flight
  close_checked : Flight
  -- Before the last section.
  write_called : Flight
  resize_called : ℕ → ℕ → Flight
  over : Flight

pub record Shared : Type 0 where
  pub session : Session
  pub flights : List Flight

pub data Section : Type 0 where
  begins_write : Text → Section
  begins_resize : ℕ → ℕ → Section
  begins_kill : Section
  -- The flight at a place calls the pseudo-console, and runs its last section.
  calls_pty : Pty → ℕ → Section
  commits : ℕ → ℕ → Section
  -- Another method, or one of the three with nothing in between.
  whole : Event → Section

abbrev pub takes_off : Shared → Flight → Shared
takes_off x f = record x { flights = x.flights ++ (f ∷ []) }

unfoldable pub begin_write : Shared → Text → Shared
begin_write x p = if x.session.closed then x else takes_off x (write_checked p)

unfoldable pub begin_resize : Shared → ℕ → ℕ → Shared
begin_resize x cols rows =
    if bad_dimensions cols rows
    then x
    else if x.session.closed
    then x
    else if x.session.cols == cols && x.session.rows == rows
    then x
    else takes_off x (resize_checked cols rows)

unfoldable pub begin_kill : Shared → Shared
begin_kill x =
    if x.session.closed
    then x
    else takes_off (record x { session = record x.session { closed = true } }) close_checked

-- What a flight has yet to call, and what it is after that.
abbrev pub call_of : Flight → List PtyCall
call_of (write_checked p) = pty_write p ∷ []
call_of (resize_checked cols rows) = pty_resize cols rows ∷ []
call_of close_checked = pty_close ∷ []
call_of _ = []

abbrev pub unless_failed : Option Error → Flight → Flight
unless_failed none f = f
unless_failed (some e) f = over

abbrev pub called : Pty → Flight → Flight
called pty (write_checked p) = unless_failed (pty.write_answer p) write_called
called pty (resize_checked cols rows) =
    unless_failed (pty.resize_answer cols rows) (resize_called cols rows)
called pty close_checked = over
called pty write_called = write_called
called pty (resize_called cols rows) = resize_called cols rows
called pty over = over

unfoldable pub call_pty_at : Pty → ℕ → List Flight → List PtyCall × List Flight
call_pty_at pty i [] = ([], [])
call_pty_at pty zero (f ∷ fs) = (call_of f, called pty f ∷ fs)
call_pty_at pty (suc i) (f ∷ fs) = let (cs, rest) = call_pty_at pty i fs in (cs, f ∷ rest)

-- The last section of a flight that has called.
abbrev pub committed : ℕ → Session → Flight → Session
committed now s write_called = record s { last_io = now }
committed now s (resize_called cols rows) = record s {
  cols = cols;
  rows = rows;
  resize_repaint_until = some (now + resize_repaint_window);
}
committed now s _ = s

abbrev pub landed : Flight → Flight
landed write_called = over
landed (resize_called cols rows) = over
landed f = f

unfoldable pub commit_at : ℕ → ℕ → Session → List Flight → Shared
commit_at now i s [] = record { session = s; flights = [] }
commit_at now zero s (f ∷ fs) = record { session = committed now s f; flights = landed f ∷ fs }
commit_at now (suc i) s (f ∷ fs) =
    let rest : Shared = commit_at now i s fs in record rest { flights = f ∷ rest.flights }

unfoldable pub apply_section : Shared → Section → Shared
unfolding begin_write begin_resize begin_kill call_pty_at commit_at apply
apply_section x (begins_write p) = begin_write x p
apply_section x (begins_resize cols rows) = begin_resize x cols rows
apply_section x begins_kill = begin_kill x
apply_section x (calls_pty pty i) =
    let (cs, fs) = call_pty_at pty i x.flights in
    record { session = record x.session { pty_calls = x.session.pty_calls ++ cs }; flights = fs }
apply_section x (commits now i) = commit_at now i x.session x.flights
apply_section x (whole e) = record x { session = apply x.session e }

unfoldable pub run_sections : Shared → List Section → Shared
unfolding apply_section
run_sections x [] = x
run_sections x (c ∷ cs) = run_sections (apply_section x c) cs
