-- ===== src/Attach/Choice.antt =====
-- relay/cmd/httpssh-relay/attach.go: which session the client joins.
pub mod Chosen
use httpssh.Base.{
  ℕ, zero, suc, ◌+◌, ◌-◌, ◌*◌, Bool, true, false, not, ◌&&◌, ◌||◌, Option, none, some, List, [],
  ◌∷◌, ◌++◌, ◌==◌, ltb, leb, if◌then◌else◌, ℤ, pos, negsuc, length, get_elem?, Text, codes, str_eq,
  trim_space, map,
}
use httpssh.Session.{SessionInfo}
use httpssh.Attach.{
  UrlLibrary, AttachOpts, AttachError, no_bearer, no_terminal, read_failed, invalid_choice, Attempt,
  done, gave_up, Url, normalize_relay_url, build_attach_ws_url, abbreviated,
}
use httpssh.Attach.Client.{ClientRequest, Exchange, list_sessions, fetch_session, create_session}

-- A line of the standard input: what `ReadString` gave with no error or at the end of the input, or an
-- error.
pub data Input : Type 0 where
  line : Text → Input
  broken_input : Input

unfoldable pub read_choice_line : Input → Attempt Text
unfolding trim_space
read_choice_line (line s) = done (trim_space s)
read_choice_line broken_input = gave_up read_failed

-- `strconv.Atoi` in decimal, within 64 bits.
unfoldable pub digits_value : ℕ → Text → Option ℕ
digits_value n [] = some n
digits_value n (x ∷ s) =
    let rest = digits_value (n * 10 + (x - b'0')) s in
    if leb b'0' x && leb x b'9' then rest else none

abbrev pub magnitude : Text → Option ℕ
magnitude [] = none
magnitude (x ∷ s) = digits_value 0 (x ∷ s)

abbrev pub as_positive : Option ℕ → Option ℤ
as_positive none = none
as_positive (some n) = if ltb n 9_223_372_036_854_775_808 then some (pos n) else none

abbrev pub as_negative : Option ℕ → Option ℤ
as_negative none = none
as_negative (some zero) = some (pos 0)
as_negative (some (suc n)) = if ltb n 9_223_372_036_854_775_808 then some (negsuc n) else none

unfoldable pub atoi : Text → Option ℤ
unfolding digits_value
atoi [] = none
atoi (x ∷ s) =
    if x == b'-'
    then as_negative (magnitude s)
    else if x == b'+'
    then as_positive (magnitude s)
    else as_positive (magnitude (x ∷ s))

unfoldable pub candidates : List SessionInfo → List SessionInfo
candidates [] = []
candidates (i ∷ is) = let rest = candidates is in if not i.host_attached then i ∷ rest else rest

-- The candidate of a number that counts from 1.
abbrev pub nth : List SessionInfo → ℤ → Option SessionInfo
nth cs (negsuc n) = none
nth cs (pos zero) = none
nth cs (pos (suc n)) = get_elem? cs n

abbrev pub picked_one : Text → Option SessionInfo → Attempt Text
picked_one choice none = gave_up (invalid_choice choice)
picked_one choice (some i) = done i.id

pub picked : Text → Option ℤ → List SessionInfo → Attempt Text
picked choice none cs = gave_up (invalid_choice choice)
picked choice (some z) cs = picked_one choice (nth cs z)

abbrev pub wants_new : Text → Bool
wants_new choice = str_eq choice [] || str_eq choice (codes "n") || str_eq choice (codes "N")

-- A line of the menu: the number, the id in short, and the session.
abbrev pub menu_line : ℕ → SessionInfo → ℕ × (Text × SessionInfo)
menu_line n i = (n + 1, (abbreviated i.id 12, i))

module _ {S : Type 0} (lib : UrlLibrary) (net : ClientRequest → S → S × Exchange)
    (opts : AttachOpts) (size : ℕ × ℕ) where
  pub chosen : Attempt Text → List SessionInfo → S → S × Attempt Text
  unfolding create_session str_eq atoi picked
  chosen (gave_up e) cs s = (s, gave_up e)
  chosen (done choice) cs s =
      if wants_new choice
      then create_session lib net opts size s
      else (s, picked choice (atoi choice) cs)

  pub choose : Input → List SessionInfo → S → S × Attempt Text
  unfolding create_session chosen read_choice_line
  choose input [] s = create_session lib net opts size s
  choose input (c ∷ cs) s = chosen (read_choice_line input) (c ∷ cs) s

  pub among_listed : Input → S × Attempt (List SessionInfo) → S × Attempt Text
  unfolding choose candidates
  among_listed input (s, gave_up e) = (s, gave_up e)
  among_listed input (s, done is) = choose input (candidates is) s

  pub named : S × Attempt SessionInfo → S × Attempt Text
  named (s, gave_up e) = (s, gave_up e)
  named (s, done i) = (s, done opts.session_id)

  unfoldable pub resolve_session_id : Input → S → S × Attempt Text
  unfolding str_eq named fetch_session create_session list_sessions among_listed
  resolve_session_id input s =
      if not (str_eq opts.session_id [])
      then named (fetch_session lib net opts opts.session_id s)
      else if opts.make_new
      then create_session lib net opts size s
      else among_listed input (list_sessions lib net opts s)
