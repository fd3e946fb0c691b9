-- ===== src/FileApi/Decoding/Encodings.antt =====
-- relay/internal/fileapi/service.go: what `decodeText` makes of a text in each of its encodings.
use httpssh.Base.{
  ℕ, ◌*◌, ◌/◌, ◌%◌, ◌≡◌, ◌≢◌, refl, ap, ◌∙◌, arith, true, false, ◌||◌, Option, some, List, [], ◌∷◌,
  ◌++◌, if◌then◌else◌, length, drop, Text, codes, has_prefix, contains_byte,
}
use httpssh.Unicode.{runes_from, valid_from, encode_rune, from_runes, utf16_decode}
use httpssh.Unicode.RoundTrip.{
  Scalar, AllScalar, utf16_encode, runes_from-from_runes, valid_from-from_runes,
  utf16_decode-utf16_encode,
}
use httpssh.FileApi.{good}
use httpssh.FileApi.Decoding.{
  is_text_rune, all_text, looks_like_text, ByteOrder, little_endian, big_endian, units,
  decode_utf16, text_in, utf8_bom, utf16le_bom, utf16be_bom, valid_text, decode_unmarked,
  decode_text,
}

-- A text of characters that may stand in a document.
abbrev pub Plain : List ℕ → Type 0
Plain [] = Unit
Plain (r ∷ rs) = Scalar r × (is_text_rune r ≡ true) × Plain rs

-- The bytes of the units of a UTF-16 text, low byte first and high byte first.
abbrev pub little_bytes : List ℕ → Text
little_bytes [] = []
little_bytes (u ∷ us) = (u % 256) ∷ (u / 256) ∷ little_bytes us

abbrev pub big_bytes : List ℕ → Text
big_bytes [] = []
big_bytes (u ∷ us) = (u / 256) ∷ (u % 256) ∷ big_bytes us

abbrev pub Marked : List ℕ → Type 0
Marked [] = ⊥
Marked (r ∷ rs) = r ≡ 0xfeff

Plain-AllScalar : (rs : List ℕ) → Plain rs → AllScalar rs
Plain-AllScalar [] h = h
Plain-AllScalar (r ∷ rs) (z, t, h) = (z, Plain-AllScalar rs h)

Plain-all_text : (rs : List ℕ) → Plain rs → all_text rs ≡ true
unfolding all_text
Plain-all_text [] h = refl
Plain-all_text (r ∷ rs) (z, t, h) = rw t (Plain-all_text rs h)

from_runes-looks_like_text : (rs : List ℕ) → Plain rs → looks_like_text (from_runes rs) ≡ true
unfolding looks_like_text
from_runes-looks_like_text rs h =
    ap all_text (runes_from-from_runes rs (Plain-AllScalar rs h)) ∙ Plain-all_text rs h

text_in-from_runes :
    (e : Text) (rs : List ℕ) → Plain rs → text_in e (some (from_runes rs)) ≡ good (from_runes rs, e)
text_in-from_runes e rs h = rw (from_runes-looks_like_text rs h) refl

units-little_bytes : (us : List ℕ) → units little_endian (little_bytes us) ≡ us
unfolding units
units-little_bytes [] = refl
units-little_bytes (u ∷ us) = ground (arith, units-little_bytes us)

units-big_bytes : (us : List ℕ) → units big_endian (big_bytes us) ≡ us
unfolding units
units-big_bytes [] = refl
units-big_bytes (u ∷ us) = ground (arith, units-big_bytes us)

length-little_bytes : (us : List ℕ) → length (little_bytes us) ≡ 2 * length us
length-little_bytes [] = refl
length-little_bytes (u ∷ us) = omega (arith, length-little_bytes us)

length-big_bytes : (us : List ℕ) → length (big_bytes us) ≡ 2 * length us
length-big_bytes [] = refl
length-big_bytes (u ∷ us) = omega (arith, length-big_bytes us)

decode_utf16_even :
    (order : ByteOrder) (s : Text) (rs : List ℕ) (n : ℕ)
    → length s ≡ 2 * n
    → units order s ≡ utf16_encode rs
    → Plain rs
    → decode_utf16 order s ≡ some (from_runes rs)
unfolding decode_utf16
decode_utf16_even order s rs n l u h =
    let d : utf16_decode (units order s) ≡ rs =
      ap utf16_decode u ∙ utf16_decode-utf16_encode rs (Plain-AllScalar rs h) in
    ground (arith, l, d)

contains_byte-append :
    (s t : Text) (b : ℕ) → contains_byte (s ++ t) b ≡ (contains_byte s b || contains_byte t b)
unfolding contains_byte
contains_byte-append [] t b = refl
contains_byte-append (x ∷ s) t b = ground (arith, contains_byte-append s t b)

encode_rune_zero : (r : ℕ) → is_text_rune r ≡ true → contains_byte (encode_rune r) 0 ≡ false
unfolding encode_rune contains_byte
encode_rune_zero r h = ground arith

contains_byte-from_runes : (rs : List ℕ) → Plain rs → contains_byte (from_runes rs) 0 ≡ false
unfolding from_runes contains_byte
contains_byte-from_runes [] h = refl
contains_byte-from_runes (r ∷ rs) (z, t, h) =
    contains_byte-append (encode_rune r) (from_runes rs) 0
    ∙ ground (arith, encode_rune_zero r t, contains_byte-from_runes rs h)

module _ (r : ℕ) (s : Text) (n : r ≢ 0xfeff) (z : Scalar r) where
  no_utf8_bom : has_prefix (encode_rune r ++ s) utf8_bom ≡ false
  unfolding has_prefix encode_rune
  no_utf8_bom = ground arith

  no_utf16le_bom : has_prefix (encode_rune r ++ s) utf16le_bom ≡ false
  unfolding has_prefix encode_rune
  no_utf16le_bom = ground arith

  no_utf16be_bom : has_prefix (encode_rune r ++ s) utf16be_bom ≡ false
  unfolding has_prefix encode_rune
  no_utf16be_bom = ground arith

module _ (shift_jis : Text → Option Text) where
  -- The empty file is no exception.
  pub decode_text_chain :
      (bytes : Text)
      → decode_text shift_jis bytes ≡ (
          if has_prefix bytes utf8_bom
          then text_in (codes "utf-8") (valid_text (drop 3 bytes))
          else if has_prefix bytes utf16le_bom
          then text_in (codes "utf-16le") (decode_utf16 little_endian (drop 2 bytes))
          else if has_prefix bytes utf16be_bom
          then text_in (codes "utf-16be") (decode_utf16 big_endian (drop 2 bytes))
          else decode_unmarked shift_jis bytes)
  unfolding decode_text has_prefix decode_unmarked contains_byte valid_from looks_like_text
      runes_from all_text
  decode_text_chain [] = refl
  decode_text_chain (x ∷ s) = refl

  module _ (rs : List ℕ) (h : Plain rs) where
    decode_text_marked :
        decode_text shift_jis (utf8_bom ++ from_runes rs) ≡ good (from_runes rs, codes "utf-8")
    unfolding decode_text has_prefix
    decode_text_marked =
        rw (valid_from-from_runes rs (Plain-AllScalar rs h))
          (text_in-from_runes (codes "utf-8") rs h)

    decode_text_utf16le :
        decode_text shift_jis (utf16le_bom ++ little_bytes (utf16_encode rs))
        ≡ good (from_runes rs, codes "utf-16le")
    unfolding decode_text has_prefix
    decode_text_utf16le =
        ap (text_in (codes "utf-16le")) (
          decode_utf16_even little_endian _ rs _ (length-little_bytes (utf16_encode rs))
            (units-little_bytes (utf16_encode rs)) h)
        ∙ text_in-from_runes (codes "utf-16le") rs h

    decode_text_utf16be :
        decode_text shift_jis (utf16be_bom ++ big_bytes (utf16_encode rs))
        ≡ good (from_runes rs, codes "utf-16be")
    unfolding decode_text has_prefix
    decode_text_utf16be =
        ap (text_in (codes "utf-16be")) (
          decode_utf16_even big_endian _ rs _ (length-big_bytes (utf16_encode rs))
            (units-big_bytes (utf16_encode rs)) h)
        ∙ text_in-from_runes (codes "utf-16be") rs h

    decode_unmarked-from_runes :
        decode_unmarked shift_jis (from_runes rs) ≡ good (from_runes rs, codes "utf-8")
    unfolding decode_unmarked
    decode_unmarked-from_runes = rw (contains_byte-from_runes rs h) (
        rw (valid_from-from_runes rs (Plain-AllScalar rs h))
          (text_in-from_runes (codes "utf-8") rs h))

  decode_text_unmarked :
      (rs : List ℕ)
      → Plain rs
      → ¬ Marked rs
      → decode_text shift_jis (from_runes rs) ≡ good (from_runes rs, codes "utf-8")
  unfolding from_runes has_prefix
  decode_text_unmarked [] h n = decode_text_chain [] ∙ decode_unmarked-from_runes [] h
  decode_text_unmarked (r ∷ rs) (z, t, h) n =
      decode_text_chain (encode_rune r ++ from_runes rs)
      ∙ rw (no_utf8_bom r (from_runes rs) n z) (
          rw (no_utf16le_bom r (from_runes rs) n z) (
            rw (no_utf16be_bom r (from_runes rs) n z)
              (decode_unmarked-from_runes (r ∷ rs) (z, t, h))))

  -- A text of characters of which none is a control character other than tab, line feed, form feed and
  -- carriage return, and none the replacement character, is read from a file as the same UTF-8 text,
  -- whether the file holds it in UTF-8 with a byte order mark, in UTF-16 of either byte order with its
  -- mark, or in UTF-8 without a mark; in the last case where the text does not itself begin with a mark.
  pub decode_text-Plain :
      (rs : List ℕ)
      → Plain rs
      → (decode_text shift_jis (utf8_bom ++ from_runes rs) ≡ good (from_runes rs, codes "utf-8"))
        × (decode_text shift_jis (utf16le_bom ++ little_bytes (utf16_encode rs))
            ≡ good (from_runes rs, codes "utf-16le"))
        × (decode_text shift_jis (utf16be_bom ++ big_bytes (utf16_encode rs))
            ≡ good (from_runes rs, codes "utf-16be"))
        × (¬ Marked rs
            → decode_text shift_jis (from_runes rs) ≡ good (from_runes rs, codes "utf-8"))
  decode_text-Plain rs h = (
    decode_text_marked rs h,
    decode_text_utf16le rs h,
    decode_text_utf16be rs h,
    decode_text_unmarked rs h,
  )
