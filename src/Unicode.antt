-- ===== src/Unicode.antt =====
-- What the relay uses of `unicode/utf8` and `unicode/utf16`: runes are numbers, texts are bytes.
pub mod RoundTrip
pub mod Valid
use httpssh.Base.{
  ℕ, zero, suc, ◌+◌, ◌*◌, ◌-◌, ◌/◌, ◌%◌, Bool, true, false, not, ◌&&◌, ◌||◌, Option, none, some,
  List, [], ◌∷◌, ◌++◌, leb, ltb, ◌==◌, if◌then◌else◌, is_some, Text,
}

abbrev pub rune_error : ℕ
rune_error = 0xfffd

abbrev pub between : ℕ → ℕ → ℕ → Bool
between lo b hi = leb lo b && leb b hi

-- The range of the second byte, by the first.
abbrev pub second_low : ℕ → ℕ
second_low a = if a == 0xe0 then 0xa0 else if a == 0xf0 then 0x90 else 0x80

abbrev pub second_high : ℕ → ℕ
second_high a = if a == 0xed then 0x9f else if a == 0xf4 then 0x8f else 0xbf

-- The rune that a text begins with, and how many bytes of it follow the first; nothing where the text
-- begins with no encoding of a rune.
abbrev decode_fourth : ℕ → ℕ → ℕ → Text → Option (ℕ × ℕ)
decode_fourth a b c [] = none
decode_fourth a b c (d ∷ s) =
    if between 0x80 d 0xbf && between 0xf0 a 0xf4
    then some ((a - 0xf0) * 262144 + (b - 0x80) * 4096 + (c - 0x80) * 64 + (d - 0x80), 3)
    else none

abbrev decode_third : ℕ → ℕ → Text → Option (ℕ × ℕ)
decode_third a b [] = none
decode_third a b (c ∷ s) =
    if not (between 0x80 c 0xbf)
    then none
    else if between 0xe0 a 0xef
    then some ((a - 0xe0) * 4096 + (b - 0x80) * 64 + (c - 0x80), 2)
    else decode_fourth a b c s

abbrev decode_second : ℕ → Text → Option (ℕ × ℕ)
decode_second a [] = none
decode_second a (b ∷ s) =
    if not (between (second_low a) b (second_high a))
    then none
    else if between 0xc2 a 0xdf
    then some ((a - 0xc0) * 64 + (b - 0x80), 1)
    else decode_third a b s

unfoldable pub decode_rune : Text → Option (ℕ × ℕ)
decode_rune [] = none
decode_rune (a ∷ s) = if ltb a 0x80 then some (a, 0) else decode_second a s

-- A byte that begins no rune stands for `rune_error` alone.
abbrev pub rune_or_error : Option (ℕ × ℕ) → ℕ
rune_or_error none = rune_error
rune_or_error (some (r, more)) = r

abbrev pub more_bytes : Option (ℕ × ℕ) → ℕ
more_bytes none = 0
more_bytes (some (r, more)) = more

-- What `range` over a string yields. The number counts the bytes of a rune that are still to be passed
-- over.
unfoldable pub runes_from : ℕ → Text → List ℕ
unfolding decode_rune
runes_from skip [] = []
runes_from (suc skip) (x ∷ s) = runes_from skip s
runes_from zero (x ∷ s) =
    let d = decode_rune (x ∷ s) in rune_or_error d ∷ runes_from (more_bytes d) s

-- `utf8.Valid`
unfoldable pub valid_from : ℕ → Text → Bool
unfolding decode_rune
valid_from skip [] = true
valid_from (suc skip) (x ∷ s) = valid_from skip s
valid_from zero (x ∷ s) = let d = decode_rune (x ∷ s) in is_some d && valid_from (more_bytes d) s

abbrev pub is_surrogate : ℕ → Bool
is_surrogate r = between 0xd800 r 0xdfff

-- `utf8.AppendRune` to nothing.
unfoldable pub encode_rune : ℕ → Text
encode_rune r =
    if ltb r 0x80
    then r ∷ []
    else if ltb r 0x800
    then (0xc0 + r / 64) ∷ (0x80 + r % 64) ∷ []
    else if is_surrogate r || ltb 0x10ffff r
    then 0xef ∷ 0xbf ∷ 0xbd ∷ []
    else if ltb r 0x10000
    then (0xe0 + r / 4096) ∷ (0x80 + r / 64 % 64) ∷ (0x80 + r % 64) ∷ []
    else (0xf0 + r / 262144) ∷ (0x80 + r / 4096 % 64) ∷ (0x80 + r / 64 % 64) ∷ (0x80 + r % 64) ∷ []

-- `string(runes)`
unfoldable pub from_runes : List ℕ → Text
unfolding encode_rune
from_runes [] = []
from_runes (r ∷ rs) = encode_rune r ++ from_runes rs

abbrev pub is_pair : ℕ → ℕ → Bool
is_pair u v = between 0xd800 u 0xdbff && between 0xdc00 v 0xdfff

-- `utf16.Decode`: the flag says that the next unit belongs to the rune before.
unfoldable pub utf16_from : Bool → List ℕ → List ℕ
utf16_from b [] = []
utf16_from true (u ∷ us) = utf16_from false us
utf16_from false (u ∷ []) = (if is_surrogate u then rune_error else u) ∷ []
utf16_from false (u ∷ v ∷ us) =
    let pair : Bool = is_pair u v in
    (if pair
      then (u - 0xd800) * 1024 + (v - 0xdc00) + 0x10000
      else if is_surrogate u
      then rune_error
      else u)
    ∷ utf16_from pair (v ∷ us)

unfoldable pub utf16_decode : List ℕ → List ℕ
unfolding utf16_from
utf16_decode = utf16_from false
