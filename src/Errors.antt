-- ===== src/Errors.antt =====
-- relay/internal/session/session.go (the error values) and the results of calls that can fail.
use httpssh.Base.{Bool, true, false, ◌++◌, Text, codes}

pub data Error : Type 0 where
  invalid_dimensions session_closed not_found invalid_shell : Error
  -- An error that no caller tells apart, by its text.
  other : Text → Error
  -- `fmt.Errorf("...: %w", err)`
  wrap : Text → Error → Error

pub data Result {ℓ} (A : Type ℓ) : Type ℓ where
  ok : A → Result A
  err : Error → Result A

-- `errors.Is(err, target)` for the targets that a handler asks for.
abbrev pub is_invalid_dimensions : Error → Bool
is_invalid_dimensions invalid_dimensions = true
is_invalid_dimensions (wrap s e) = is_invalid_dimensions e
is_invalid_dimensions _ = false

abbrev pub is_invalid_shell : Error → Bool
is_invalid_shell invalid_shell = true
is_invalid_shell (wrap s e) = is_invalid_shell e
is_invalid_shell _ = false

-- `err.Error()`
abbrev pub error_text : Error → Text
error_text invalid_dimensions = codes "session: cols/rows out of range"
error_text session_closed = codes "session: closed"
error_text not_found = codes "session: not found"
error_text invalid_shell = codes "session: invalid shell"
error_text (other s) = s
error_text (wrap s e) = s ++ codes ": " ++ error_text e
