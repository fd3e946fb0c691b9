-- ===== src/Cwd/Chunks.antt =====
-- relay/internal/session/cwdtracker.go: what does not depend on how the output is cut into chunks, and
-- the bound on the text that is kept.
use httpssh.Base.{
  ℕ, ◌≤◌, ◌≡◌, refl, ap, ◌∙◌, sym, List, [], ◌∷◌, ◌++◌, arith, length, length-append, concat,
  append_assoc, Text,
}
use httpssh.Cwd.{ParserState, cwd_scan, cwd_in_osc, CwdTracker, cwd_max_body, step_in, step, feed}

pub feed-append :
    (t : CwdTracker) (p q : Text)
    → feed t (p ++ q) ≡ ((feed (feed t p).0 q).0, (feed t p).1 ++ (feed (feed t p).0 q).1)
unfolding feed
feed-append t [] q = refl
feed-append t (b ∷ p) q =
    let u = (step t b).0 in
    let ih = feed-append u p q in
    ap (λ r. (r.0, (step t b).1 ++ r.1)) ih
    ∙ ap (λ l. ((feed (feed u p).0 q).0, l))
        (sym (append_assoc (step t b).1 (feed u p).1 (feed (feed u p).0 q).1))

-- The pump: one call of `feed` for each read, the tracker kept between them.
abbrev pub feed_all : CwdTracker → List Text → CwdTracker × List Text
feed_all t [] = (t, [])
feed_all t (p ∷ ps) = let (u, now) = feed t p in let (v, later) = feed_all u ps in (v, now ++ later)

-- However the output is cut into reads, the same paths come out and the tracker ends the same.
pub feed_all-concat : (t : CwdTracker) (ps : List Text) → feed_all t ps ≡ feed t (concat ps)
unfolding feed
feed_all-concat t [] = refl
feed_all-concat t (p ∷ ps) =
    ap (λ r. (r.0, (feed t p).1 ++ r.1)) (feed_all-concat (feed t p).0 ps)
    ∙ sym (feed-append t p (concat ps))

abbrev pub IsBounded : CwdTracker → Type 0
IsBounded t = length t.body ≤ cwd_max_body

step_in-IsBounded :
    (s : ParserState) (t : CwdTracker) (b : ℕ) → IsBounded t → IsBounded (step_in s t b).0
unfolding step_in
step_in-IsBounded cwd_scan t b h = ground arith
step_in-IsBounded cwd_in_osc t b h = ground (arith, length-append t.body (b ∷ []))
step_in-IsBounded _ t b h = ground arith

-- No output, however long, makes the tracker keep more than `cwdMaxBody` bytes.
pub feed-IsBounded : (t : CwdTracker) (p : Text) → IsBounded t → IsBounded (feed t p).0
unfolding feed
feed-IsBounded t [] h = h
feed-IsBounded t (b ∷ p) h =
    feed-IsBounded (step t b).0 p (unfold step in step_in-IsBounded t.state t b h)
