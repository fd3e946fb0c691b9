-- ===== src/Cwd/Sequence.antt =====
-- relay/internal/session/cwdtracker.go: whole sequences and plain output.
use httpssh.Base.{
  ℕ, ◌≤◌, ◌<◌, ◌≡◌, ◌≢◌, refl, sym, ap, ◌∙◌, inl, inr, List, [], ◌∷◌, ◌++◌, arith, ltb, ltb→lt,
  ltb-false→le, Bool-cases, length, take, take_all, take-append_le, length-append, append-nil,
  append_assoc, Text,
}
use httpssh.Cwd.{
  cwd_scan, cwd_in_osc, CwdTracker, cwd_max_body, new_cwd_tracker, parse_osc99, reported, step_in,
  step, feed,
}
use httpssh.Cwd.Chunks.{feed-append}

-- No byte of the text starts or ends a sequence.
abbrev pub IsQuiet : Text → Type 0
IsQuiet [] = Unit {0}
IsQuiet (b ∷ s) = (b ≢ 0x07) × (b ≢ 0x1b) × IsQuiet s

pub IsQuiet-append : (s t : Text) → IsQuiet s → IsQuiet t → IsQuiet (s ++ t)
IsQuiet-append [] t h k = k
IsQuiet-append (b ∷ s) t (x, y, h) k = (x, y, IsQuiet-append s t h k)

pub data Terminator : Type 0 where
  bel st : Terminator

abbrev pub terminator : Terminator → Text
terminator bel = 0x07 ∷ []
terminator st = 0x1b ∷ b'\\' ∷ []

-- ESC ] s BEL, or ESC ] s ESC \
abbrev pub osc : Text → Terminator → Text
osc s e = 0x1b ∷ b']' ∷ (s ++ terminator e)

abbrev pub scanning : Text → CwdTracker
scanning kept = record { state = cwd_scan; body = kept }

abbrev pub gathering : Text → CwdTracker
gathering kept = record { state = cwd_in_osc; body = kept }

pub gather_room :
    (kept : Text) (b : ℕ)
    → b ≢ 0x07
    → b ≢ 0x1b
    → length kept < cwd_max_body
    → step (gathering kept) b ≡ (gathering (kept ++ (b ∷ [])), [])
unfolding step step_in
gather_room kept b x y h = ground arith

pub gather_full :
    (kept : Text) (b : ℕ)
    → b ≢ 0x07
    → b ≢ 0x1b
    → cwd_max_body ≤ length kept
    → step (gathering kept) b ≡ (gathering kept, [])
unfolding step step_in
gather_full kept b x y h = ground arith

abbrev pub after : CwdTracker × List Text → Text → CwdTracker × List Text
after (t, now) p = ((feed t p).0, now ++ (feed t p).1)

pub feed-cons : (t : CwdTracker) (b : ℕ) (p : Text) → feed t (b ∷ p) ≡ after (step t b) p
unfolding feed
feed-cons t b p = refl

-- Inside a sequence the first `cwdMaxBody` bytes are kept.
pub gather :
    (kept s : Text)
    → length kept ≤ cwd_max_body
    → IsQuiet s
    → feed (gathering kept) s ≡ (gathering (take cwd_max_body (kept ++ s)), [])
gather kept [] h q =
    unfold feed in
    ap (λ t. (gathering t, []))
      (sym (ap (take cwd_max_body) (append-nil kept) ∙ take_all cwd_max_body kept h))
gather kept (b ∷ s) h (x, y, q) =
    feed-cons (gathering kept) b s ∙ elim (Bool-cases (ltb (length kept) cwd_max_body)) [
      | inl room ↦
          ap (λ r. after r s) (gather_room kept b x y (ltb→lt _ _ room))
          ∙ ap (λ r. (r.0, [] ++ r.1))
              (gather (kept ++ (b ∷ [])) s
                (omega (arith, length-append kept (b ∷ []), ltb→lt (length kept) cwd_max_body room))
                q)
          ∙ ap (λ t. (gathering (take cwd_max_body t), [])) (append_assoc kept (b ∷ []) s)
      | inr full ↦
          let at : cwd_max_body ≤ length kept = ltb-false→le _ _ full in
          ap (λ r. after r s) (gather_full kept b x y at)
          ∙ ap (λ r. (r.0, [] ++ r.1)) (gather kept s h q)
          ∙ ap (λ t. (gathering t, []))
              (take-append_le cwd_max_body kept s at
                ∙ sym (take-append_le cwd_max_body kept (b ∷ s) at))
    ]

pub enter : (kept p : Text) → feed (scanning kept) (0x1b ∷ b']' ∷ p) ≡ feed (gathering []) p
unfolding feed step step_in
enter kept p = refl

pub leave :
    (kept : Text) (e : Terminator)
    → feed (gathering kept) (terminator e) ≡ (new_cwd_tracker, reported (parse_osc99 kept))
unfolding feed step step_in
leave kept bel = ap (λ l. (new_cwd_tracker, l)) (append-nil (reported (parse_osc99 kept)))
leave kept st = ap (λ l. (new_cwd_tracker, l)) (append-nil (reported (parse_osc99 kept)))

-- A whole sequence reports what `parseOSC99` makes of the first `cwdMaxBody` bytes of its text, and
-- the tracker is as new.
pub feed-osc :
    (kept s : Text) (e : Terminator)
    → IsQuiet s
    → feed (scanning kept) (osc s e)
      ≡ (new_cwd_tracker, reported (parse_osc99 (take cwd_max_body s)))
feed-osc kept s e q =
    enter kept (s ++ terminator e)
    ∙ feed-append (gathering []) s (terminator e)
    ∙ ap (λ r. after r (terminator e)) (gather [] s (omega arith) q)
    ∙ ap (λ r. (r.0, [] ++ r.1)) (leave (take cwd_max_body s) e)

-- Output with no ESC in it goes by.
abbrev pub IsPlain : Text → Type 0
IsPlain [] = Unit {0}
IsPlain (b ∷ s) = (b ≢ 0x1b) × IsPlain s

pub feed_plain : (kept s : Text) → IsPlain s → feed (scanning kept) s ≡ (scanning kept, [])
unfolding feed
feed_plain kept [] h = refl
feed_plain kept (b ∷ s) (x, h) =
    feed-cons (scanning kept) b s
    ∙ ap (λ r. after r s) (unfold step step_in in passes)
    ∙ ap (λ r. (r.0, [] ++ r.1)) (feed_plain kept s h)
  where
    passes : step (scanning kept) b ≡ (scanning kept, [])
    passes = unfold step step_in in ground arith
