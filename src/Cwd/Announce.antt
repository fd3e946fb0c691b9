-- ===== src/Cwd/Announce.antt =====
-- relay/internal/session/cwdtracker.go: which paths come out of well-formed and of broken sequences.
use httpssh.Base.{
  ◌≤◌, ◌≡◌, refl, ap, ◌∙◌, Bool, true, false, [], ◌∷◌, ◌++◌, arith, length, take, take_all, Text,
}
use httpssh.Cwd.{
  cwd_max_body, new_cwd_tracker, osc99_prefix, parse_osc99, reported, step_in, step, feed,
}
use httpssh.Cwd.Chunks.{feed-append}
use httpssh.Cwd.Sequence.{
  IsQuiet, IsQuiet-append, Terminator, terminator, osc, scanning, gathering, after, gather, enter,
  feed-osc, IsPlain, feed_plain, bel,
}
use httpssh.Cwd.Directory.{IsDirectory, quoted, parse_osc99-quoted}

-- The text of an OSC 9;9 sequence.
abbrev pub osc99 : Bool → Text → Text
osc99 mark path = osc99_prefix ++ quoted mark path

osc99-IsQuiet : (mark : Bool) (path : Text) → IsQuiet path → IsQuiet (osc99 mark path)
osc99-IsQuiet false path q = ground arith
osc99-IsQuiet true path q = ground (arith, IsQuiet-append path (b'"' ∷ []) q (omega arith))

-- A prompt's sequence reports its directory, with and without quotes and by either terminator, from
-- whatever plain output it stands in, if the whole text fits; the tracker is then as new.
pub feed-osc99 :
    (mark : Bool) (path before behind : Text) (e : Terminator)
    → IsDirectory path
    → length (osc99 mark path) ≤ cwd_max_body
    → IsPlain before
    → IsPlain behind
    → feed new_cwd_tracker (before ++ (osc (osc99 mark path) e ++ behind))
      ≡ (new_cwd_tracker, path ∷ [])
feed-osc99 mark path before behind e d fits quiet_before quiet_behind =
    feed-append new_cwd_tracker before (osc (osc99 mark path) e ++ behind)
    ∙ ap (λ r. after r (osc (osc99 mark path) e ++ behind)) (feed_plain [] before quiet_before)
    ∙ feed-append new_cwd_tracker (osc (osc99 mark path) e) behind
    ∙ ap (λ r. after r behind)
        (feed-osc [] (osc99 mark path) e (osc99-IsQuiet mark path d.quiet)
          ∙ ap (λ t. (new_cwd_tracker, reported (parse_osc99 t)))
              (take_all cwd_max_body (osc99 mark path) fits)
          ∙ ap (λ o. (new_cwd_tracker, reported o)) (parse_osc99-quoted mark path d))
    ∙ ap (λ r. (r.0, path ∷ r.1)) (feed_plain [] behind quiet_behind)

broken : (kept s : Text) → feed (gathering kept) (0x1b ∷ b']' ∷ s) ≡ feed (scanning []) s
unfolding feed step step_in
broken kept s = refl

IsQuiet-IsPlain : (s : Text) → IsQuiet s → IsPlain s
IsQuiet-IsPlain [] q = tt
IsQuiet-IsPlain (b ∷ s) (x, y, q) = (y, IsQuiet-IsPlain s q)

IsPlain-append : (s t : Text) → IsPlain s → IsPlain t → IsPlain (s ++ t)
IsPlain-append [] t h k = k
IsPlain-append (b ∷ s) t (x, h) k = (x, IsPlain-append s t h k)

-- Where a sequence is not ended before another one begins, the second is lost: the ESC of the second ends
-- the first, its `]` is read as plain output, and when the second ends by BEL nothing is reported, whatever
-- either says.
pub feed_broken :
    (kept lost s : Text)
    → IsQuiet lost
    → IsQuiet s
    → feed (scanning kept) ((0x1b ∷ b']' ∷ lost) ++ osc s bel) ≡ (new_cwd_tracker, [])
feed_broken kept lost s ql qs =
    enter kept (lost ++ osc s bel)
    ∙ feed-append (gathering []) lost (osc s bel)
    ∙ ap (λ r. after r (osc s bel)) (gather [] lost (omega arith) ql)
    ∙ ap (λ r. (r.0, [] ++ r.1)) (broken (take cwd_max_body lost) (s ++ terminator bel))
    ∙ ap (λ r. (r.0, [] ++ r.1))
        (feed_plain [] (s ++ terminator bel)
          (IsPlain-append s (terminator bel) (IsQuiet-IsPlain s qs) (omega arith)))
