-- ===== src/Session/Resize.antt =====
-- relay/internal/session/session.go: `Resize` and the dimensions of a session.
use httpssh.Base.{ℕ, ◌≤◌, ◌≡◌, false, none, arith}
use httpssh.Session.{Session, Pty, max_cols, max_rows, resize}

abbrev pub IsSized : Session → Type 0
IsSized s = (1 ≤ s.cols) × (s.cols ≤ max_cols) × (1 ≤ s.rows) × (s.rows ≤ max_rows)

-- Whatever is asked, the dimensions stay within 1 to 500 columns and 1 to 200 rows.
pub resize-IsSized :
    (pty : Pty) (now : ℕ) (s : Session) (cols rows : ℕ)
    → IsSized s
    → IsSized (resize pty now s cols rows).0
unfolding resize
resize-IsSized pty now s cols rows h = ground arith

-- A call that succeeds leaves the session at the dimensions asked for, which are in range, and the
-- session was open.
pub resize_ok :
    (pty : Pty) (now : ℕ) (s : Session) (cols rows : ℕ)
    → (resize pty now s cols rows).1 ≡ none
    → ((resize pty now s cols rows).0.cols ≡ cols)
      × ((resize pty now s cols rows).0.rows ≡ rows)
      × IsSized (resize pty now s cols rows).0
      × (s.closed ≡ false)
unfolding resize
resize_ok pty now s cols rows h = ground arith

-- After a `Resize` that succeeded, the same call again, as after a reconnect, succeeds, reaches the
-- pseudo-console no more and changes nothing.
pub resize_again :
    (pty pty' : Pty) (now now' : ℕ) (s : Session) (cols rows : ℕ)
    → (resize pty now s cols rows).1 ≡ none
    → resize pty' now' (resize pty now s cols rows).0 cols rows
      ≡ ((resize pty now s cols rows).0, none)
unfolding resize
resize_again pty pty' now now' s cols rows h = ground arith
