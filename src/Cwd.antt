-- ===== src/Cwd.antt =====
-- relay/internal/session/cwdtracker.go: the scanner that finds OSC 9;9 sequences in shell output.
-- `feed` returns the new tracker beside the paths; it is touched by one goroutine only.
pub mod Chunks
pub mod Announce
pub mod Directory
pub mod Sequence
mod Tests
use httpssh.Base.{
  ℕ, ◌+◌, Bool, true, false, Option, none, some, List, [], ◌∷◌, ◌++◌, ltb, ◌==◌, if◌then◌else◌,
  length, drop, Text, codes, has_prefix, trim_space, trim,
}

pub data ParserState : Type 0 where
  cwd_scan cwd_after_esc cwd_in_osc cwd_osc_esc : ParserState

pub record CwdTracker : Type 0 where
  pub state : ParserState
  pub body : Text

-- Not an `abbrev`, so that no proof counts up to it.
unfoldable pub cwd_max_body : ℕ
cwd_max_body = 4096

abbrev pub new_cwd_tracker : CwdTracker
new_cwd_tracker = record { state = cwd_scan; body = [] }

abbrev pub osc99_prefix : Text
osc99_prefix = codes "9;9;"

-- The empty text is `"", false`.
abbrev some_text : Text → Option Text
some_text [] = none
some_text (x ∷ s) = some (x ∷ s)

unfoldable pub parse_osc99 : Text → Option Text
unfolding has_prefix trim_space trim
parse_osc99 s =
    if has_prefix s osc99_prefix
    then some_text (trim b'"' (trim_space (drop (length osc99_prefix) s)))
    else none

-- `if path, ok := parseOSC99(t.body); ok { out = append(out, path) }`
abbrev pub reported : Option Text → List Text
reported none = []
reported (some path) = path ∷ []

-- The end of a sequence, by BEL or by ST.
finish : CwdTracker → CwdTracker × List Text
unfolding parse_osc99
finish t = (record { state = cwd_scan; body = [] }, reported (parse_osc99 t.body))

after_esc : CwdTracker → ℕ → CwdTracker
after_esc t b =
    if b == b']'
    then record { state = cwd_in_osc; body = [] }
    else if b == 0x1b
    then t
    else record t { state = cwd_scan }

in_osc : CwdTracker → ℕ → CwdTracker × List Text
unfolding finish cwd_max_body
in_osc t b =
    if b == 0x07 then finish t else if b == 0x1b then (record t { state = cwd_osc_esc }, []) else (
      (if ltb (length t.body) cwd_max_body then record t { body = t.body ++ (b ∷ []) } else t),
      [],
    )

osc_esc : CwdTracker → ℕ → CwdTracker × List Text
unfolding finish
osc_esc t b =
    if b == b'\\'
    then finish t
    else (record { state = (if b == 0x1b then cwd_after_esc else cwd_scan); body = [] }, [])

-- The loop's body: `switch t.state`.
step_in : ParserState → CwdTracker → ℕ → CwdTracker × List Text
unfolding after_esc in_osc osc_esc
step_in cwd_scan t b = ((if b == 0x1b then record t { state = cwd_after_esc } else t), [])
step_in cwd_after_esc t b = (after_esc t b, [])
step_in cwd_in_osc t b = in_osc t b
step_in cwd_osc_esc t b = osc_esc t b

unfoldable pub step : CwdTracker → ℕ → CwdTracker × List Text
unfolding step_in
step t b = step_in t.state t b

-- The paths of a chunk, in order.
unfoldable pub feed : CwdTracker → Text → CwdTracker × List Text
unfolding step
feed t [] = (t, [])
feed t (b ∷ p) = let (u, now) = step t b in let (v, later) = feed u p in (v, now ++ later)
