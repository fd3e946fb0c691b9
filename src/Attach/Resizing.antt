-- ===== src/Attach/Resizing.antt =====
-- relay/cmd/httpssh-relay/attach_windows.go and attach_unix.go: the dimensions of the client's terminal.
--
-- What the terminal is asked is a list of answers, one for each time: nothing where `term.GetSize`
-- fails. The mode of the terminal is a matter of the system and not modelled.
pub mod Followed
use httpssh.Base.{
  ℕ, ◌%◌, Bool, true, false, ◌&&◌, ◌||◌, Option, none, some, List, [], ◌∷◌, ◌++◌, ◌==◌,
  if◌then◌else◌,
}
use httpssh.Attach.Terminal.{Tick, resized}

-- `uint16(w)` and `uint16(h)`
abbrev pub get_stdout_size : Option (ℕ × ℕ) → Option (ℕ × ℕ)
get_stdout_size none = none
get_stdout_size (some (w, h)) = some (w % 65_536, h % 65_536)

-- The dimensions, 0 where they cannot be told.
abbrev pub size_or_zero : Option (ℕ × ℕ) → ℕ × ℕ
size_or_zero none = (0, 0)
size_or_zero (some z) = z

-- On Windows, a round of the loop: the last dimensions, and what goes to the channel.
unfoldable pub poll : ℕ × ℕ → Option (ℕ × ℕ) → (ℕ × ℕ) × List Tick
poll last none = (last, [])
poll last (some (c, r)) =
    if c == 0 || r == 0
    then (last, [])
    else if c == last.0 && r == last.1
    then (last, [])
    else ((c, r), resized c r ∷ [])

unfoldable pub poll_all : ℕ × ℕ → List (Option (ℕ × ℕ)) → List Tick
unfolding poll
poll_all last [] = []
poll_all last (p ∷ ps) =
    let next : (ℕ × ℕ) × List Tick = poll last (get_stdout_size p) in next.1 ++ poll_all next.0 ps

-- `watchResize` of attach_windows.go, from what the terminal answers at its start and at each tick.
unfoldable pub watch_resize : Option (ℕ × ℕ) → List (Option (ℕ × ℕ)) → List Tick
unfolding poll_all
watch_resize first ps = poll_all (size_or_zero (get_stdout_size first)) ps

-- `watchResize` of attach_unix.go, from what the terminal answers at each signal.
abbrev pub signalled : Option (ℕ × ℕ) → List Tick
signalled none = []
signalled (some (c, r)) = if c == 0 || r == 0 then [] else resized c r ∷ []

unfoldable pub watch_signals : List (Option (ℕ × ℕ)) → List Tick
watch_signals [] = []
watch_signals (p ∷ ps) = signalled (get_stdout_size p) ++ watch_signals ps
