-- ===== src/Protocol/Wire/Exact.antt =====
-- relay/internal/session/protocol.go: which chunks of output arrive as they were sent.
use httpssh.Base.{
  ℕ, zero, suc, ◌+◌, ◌*◌, ◌≡◌, ◌↔◌, refl, ap, ◌∙◌, arith, if◌then◌else◌, true, ◌&&◌, Option, none,
  some, is_some, List, [], ◌∷◌, ◌++◌, concat, map, length, length-append, drop, Text,
}
use httpssh.Unicode.{
  decode_rune, rune_or_error, more_bytes, runes_from, valid_from, encode_rune, from_runes,
}
use httpssh.Unicode.Valid.{DecodedFrom, encode_rune-decode_rune}
use httpssh.Protocol.Wire.{json_text}

-- How many bytes begin no character.
broken_from : ℕ → Text → ℕ
broken_from skip [] = 0
broken_from (suc skip) (x ∷ s) = broken_from skip s
broken_from zero (x ∷ s) =
    let d = decode_rune (x ∷ s) in (if is_some d then 0 else 1) + broken_from (more_bytes d) s

valid_from-broken_from :
    (skip : ℕ) (s : Text) → (valid_from skip s ≡ true) ↔ (broken_from skip s ≡ 0)
unfolding valid_from broken_from
valid_from-broken_from skip [] = ((λ h. refl), (λ h. refl))
valid_from-broken_from (suc skip) (x ∷ s) = valid_from-broken_from skip s
valid_from-broken_from zero (x ∷ s) =
    next (decode_rune (x ∷ s)) (valid_from-broken_from (more_bytes (decode_rune (x ∷ s))) s)
  where
    next :
        (d : Option (ℕ × ℕ))
        → (valid_from (more_bytes d) s ≡ true) ↔ (broken_from (more_bytes d) s ≡ 0)
        → ((is_some d && valid_from (more_bytes d) s) ≡ true)
          ↔ ((if is_some d then 0 else 1) + broken_from (more_bytes d) s ≡ 0)
    next none h = ((λ k. cc), (λ k. absurd (omega (arith, k))))
    next (some d) h = ((λ k. omega (arith, h.0 k)), (λ k. h.1 (omega (arith, k))))

-- Every such byte makes the text longer by two.
length-from_runes :
    (skip : ℕ) (s : Text)
    → length (from_runes (runes_from skip s)) ≡ length (drop skip s) + 2 * broken_from skip s
unfolding runes_from from_runes broken_from encode_rune
length-from_runes zero [] = refl
length-from_runes (suc skip) [] = refl
length-from_runes (suc skip) (x ∷ s) = length-from_runes skip s
length-from_runes zero (x ∷ s) =
    next (decode_rune (x ∷ s)) (encode_rune-decode_rune (x ∷ s))
      (length-from_runes (more_bytes (decode_rune (x ∷ s))) s)
  where
    next :
        (d : Option (ℕ × ℕ))
        → DecodedFrom (x ∷ s) d
        → length (from_runes (runes_from (more_bytes d) s))
          ≡ length (drop (more_bytes d) s) + 2 * broken_from (more_bytes d) s
        → length (encode_rune (rune_or_error d) ++ from_runes (runes_from (more_bytes d) s))
          ≡ suc (length s) + 2 * ((if is_some d then 0 else 1) + broken_from (more_bytes d) s)
    next none e h = omega (arith, h)
    next (some (r, more)) e h = omega (
      arith,
      h,
      length-append (encode_rune r) (from_runes (runes_from more s)),
      length-append (encode_rune r) (drop more s),
      ap (λ (t : Text). length t) e,
    )

from_runes-runes_from :
    (skip : ℕ) (s : Text) → valid_from skip s ≡ true → from_runes (runes_from skip s) ≡ drop skip s
unfolding runes_from from_runes valid_from
from_runes-runes_from zero [] h = refl
from_runes-runes_from (suc skip) [] h = refl
from_runes-runes_from (suc skip) (x ∷ s) h = from_runes-runes_from skip s h
from_runes-runes_from zero (x ∷ s) h =
    next (decode_rune (x ∷ s)) (encode_rune-decode_rune (x ∷ s)) h
      (from_runes-runes_from (more_bytes (decode_rune (x ∷ s))) s)
  where
    next :
        (d : Option (ℕ × ℕ))
        → DecodedFrom (x ∷ s) d
        → (is_some d && valid_from (more_bytes d) s) ≡ true
        → (valid_from (more_bytes d) s ≡ true
            → from_runes (runes_from (more_bytes d) s) ≡ drop (more_bytes d) s)
        → encode_rune (rune_or_error d) ++ from_runes (runes_from (more_bytes d) s) ≡ x ∷ s
    next none e k h = cc
    next (some (r, more)) e k h = ap (λ t. encode_rune r ++ t) (h k) ∙ e

-- Texts that are valid UTF-8, each by itself.
abbrev pub AllValid : List Text → Type 0
AllValid [] = Unit {0}
AllValid (p ∷ ps) = (valid_from 0 p ≡ true) × AllValid ps

-- How many bytes of the chunks begin no character in their chunk.
broken_bytes : List Text → ℕ
broken_bytes [] = 0
broken_bytes (p ∷ ps) = broken_from 0 p + broken_bytes ps

AllValid-broken_bytes : (ps : List Text) → broken_bytes ps ≡ 0 → AllValid ps
unfolding broken_bytes
AllValid-broken_bytes [] h = tt
AllValid-broken_bytes (p ∷ ps) h =
    ((valid_from-broken_from 0 p).1 (omega (arith, h)), AllValid-broken_bytes ps (omega (arith, h)))

length-sent :
    (ps : List Text) → length (concat (map json_text ps)) ≡ length (concat ps) + 2 * broken_bytes ps
unfolding json_text broken_bytes
length-sent [] = refl
length-sent (p ∷ ps) = omega (
  arith,
  length-append (from_runes (runes_from 0 p)) (concat (map json_text ps)),
  length-append p (concat ps),
  length-from_runes 0 p,
  length-sent ps,
)

sent_whole : (ps : List Text) → AllValid ps → concat (map json_text ps) ≡ concat ps
unfolding json_text
sent_whole [] h = refl
sent_whole (p ∷ ps) (v, h) =
    ap (λ t. t ++ concat (map json_text ps)) (from_runes-runes_from 0 p v)
    ∙ ap (λ t. p ++ t) (sent_whole ps h)

-- What arrives of a sequence of chunks is what was sent exactly if every chunk is valid UTF-8 by itself: a
-- character that is cut between two chunks does not arrive.
pub concat-json_text_iff : (ps : List Text) → (concat (map json_text ps) ≡ concat ps) ↔ AllValid ps
concat-json_text_iff ps = (
  (λ h. AllValid-broken_bytes ps (omega (arith, length-sent ps, ap (λ (t : Text). length t) h))),
  sent_whole ps,
)
