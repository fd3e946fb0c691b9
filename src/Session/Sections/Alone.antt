-- ===== src/Session/Sections/Alone.antt =====
-- relay/internal/session/session.go: the sections of a method with nothing in between.
use httpssh.Base.{
  ℕ, ◌≡◌, refl, ap, Bool, true, false, ◌&&◌, ◌==◌, Option, none, some, [], ◌∷◌, append-nil,
  if◌then◌else◌, Text,
}
use httpssh.Session.{
  Session, Pty, pty_write, pty_resize, pty_close, Error, invalid_dimensions, session_closed, call,
  bad_dimensions, write_commit, resize_commit, write_input, resize, kill,
}
use httpssh.Session.Sections.{
  write_checked, resize_checked, close_checked, write_called, resize_called, Shared, begins_write,
  begins_resize, begins_kill, calls_pty, commits, takes_off, begin_write, begin_resize, begin_kill,
  unless_failed, call_pty_at, commit_at, apply_section, run_sections,
}

abbrev alone : Session → Shared
alone s = record { session = s; flights = [] }

module _ (pty : Pty) (now : ℕ) (s : Session) where
  after_check : Shared → Session
  after_check x = (run_sections x (calls_pty pty 0 ∷ commits now 0 ∷ [])).session

  after_check-alone : after_check (alone s) ≡ s
  unfolding after_check run_sections apply_section call_pty_at commit_at
  after_check-alone = ap (λ cs. record s { pty_calls = cs }) (append-nil s.pty_calls)

  -- A write that nothing comes in between of is `WriteInput`.
  pub run_sections-write_input :
      (p : Text)
      → (run_sections (alone s) (begins_write p ∷ calls_pty pty 0 ∷ commits now 0 ∷ [])).session
        ≡ (write_input pty now s p).0
  unfolding after_check run_sections apply_section begin_write call_pty_at commit_at write_input
      write_commit
  run_sections-write_input p = by_closed s.closed
    where
      by_answer :
          (o : Option Error)
          → (commit_at now 0 (call s (pty_write p)) (unless_failed o write_called ∷ [])).session
            ≡ (write_commit (call s (pty_write p)) o now).0
      by_answer none = refl
      by_answer (some e) = refl

      by_closed :
          (b : Bool)
          → after_check (if b then alone s else takes_off (alone s) (write_checked p))
            ≡ (if b
                then (s, some session_closed)
                else write_commit (call s (pty_write p)) (pty.write_answer p) now).0
      by_closed true = after_check-alone
      by_closed false = by_answer (pty.write_answer p)

  pub run_sections-resize :
      (cols rows : ℕ)
      → (run_sections
          (alone s)
          (begins_resize cols rows ∷ calls_pty pty 0 ∷ commits now 0 ∷ [])).session
        ≡ (resize pty now s cols rows).0
  unfolding after_check run_sections apply_section begin_resize call_pty_at commit_at resize
      resize_commit
  run_sections-resize cols rows =
      by_test (bad_dimensions cols rows) s.closed (s.cols == cols && s.rows == rows)
    where
      by_answer :
          (o : Option Error)
          → (commit_at now 0
              (call s (pty_resize cols rows))
              (unless_failed o (resize_called cols rows) ∷ [])).session
            ≡ (resize_commit (call s (pty_resize cols rows)) cols rows o now).0
      by_answer none = refl
      by_answer (some e) = refl

      by_test :
          (a b c : Bool)
          → after_check (
              if a
              then alone s
              else if b
              then alone s
              else if c
              then alone s
              else takes_off (alone s) (resize_checked cols rows))
            ≡ (if a
                then (s, some invalid_dimensions)
                else if b
                then (s, some session_closed)
                else if c
                then (s, none)
                else resize_commit
                    (call s (pty_resize cols rows))
                    cols
                    rows
                    (pty.resize_answer cols rows)
                    now).0
      by_test true b c = after_check-alone
      by_test false true c = after_check-alone
      by_test false false true = after_check-alone
      by_test false false false = by_answer (pty.resize_answer cols rows)

  pub run_sections-kill :
      (run_sections (alone s) (begins_kill ∷ calls_pty pty 0 ∷ commits now 0 ∷ [])).session
      ≡ (kill pty s).0
  unfolding after_check run_sections apply_section begin_kill call_pty_at commit_at kill
  run_sections-kill = by_closed s.closed
    where
      by_closed :
          (b : Bool)
          → after_check
              (if b then alone s else takes_off (alone (record s { closed = true })) close_checked)
            ≡ (if◌then◌else◌ {A = Session × Option Error} b
                (s, none)
                (call (record s { closed = true }) pty_close, pty.close_answer)).0
      by_closed true = after_check-alone
      by_closed false = refl
