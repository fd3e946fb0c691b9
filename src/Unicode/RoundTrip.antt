-- ===== src/Unicode/RoundTrip.antt =====
-- The encodings of `unicode/utf8` and `unicode/utf16`: what is written is read back.
use httpssh.Base.{
  ℕ, ◌≡◌, ◌⊎◌, inl, inr, refl, ap, ◌∙◌, true, false, ◌+◌, ◌/◌, ◌%◌, ◌≤◌, ◌<◌, arith, some, List, [],
  ◌∷◌, ◌++◌, ltb, if◌then◌else◌, Text, Bool-cases, if_cases, ltb→lt, ltb-false→le,
}
use httpssh.Unicode.{
  decode_rune, runes_from, valid_from, encode_rune, from_runes, utf16_from, utf16_decode,
}

-- A rune that stands for a character: no surrogate, and in range.
abbrev pub Scalar : ℕ → Type 0
Scalar r = (r < 0xd800) ⊎ ((0xe000 ≤ r) × (r ≤ 0x10ffff))

abbrev pub AllScalar : List ℕ → Type 0
AllScalar [] = Unit
AllScalar (r ∷ rs) = Scalar r × AllScalar rs

-- A rune in UTF-16.
abbrev pub units_of : ℕ → List ℕ
units_of r = if ltb r 0x10000 then r ∷ [] else (0xd7c0 + r / 1024) ∷ (0xdc00 + r % 1024) ∷ []

abbrev pub utf16_encode : List ℕ → List ℕ
utf16_encode [] = []
utf16_encode (r ∷ rs) = units_of r ++ utf16_encode rs

module _ (r : ℕ) where
  encode_one : r < 0x80 → encode_rune r ≡ r ∷ []
  unfolding encode_rune
  encode_one h = ground arith

  encode_two : 0x80 ≤ r → r < 0x800 → encode_rune r ≡ (0xc0 + r / 64) ∷ (0x80 + r % 64) ∷ []
  unfolding encode_rune
  encode_two h k = ground arith

  encode_three :
      0x800 ≤ r
      → r < 0x10000
      → Scalar r
      → encode_rune r ≡ (0xe0 + r / 4096) ∷ (0x80 + r / 64 % 64) ∷ (0x80 + r % 64) ∷ []
  unfolding encode_rune
  encode_three h k z = ground arith

  encode_four :
      0x10000 ≤ r
      → Scalar r
      → encode_rune r
        ≡ (0xf0 + r / 262144) ∷ (0x80 + r / 4096 % 64) ∷ (0x80 + r / 64 % 64) ∷ (0x80 + r % 64) ∷ []
  unfolding encode_rune
  encode_four h z = ground arith

  decode_two :
      (s : Text)
      → 0x80 ≤ r
      → r < 0x800
      → decode_rune ((0xc0 + r / 64) ∷ (0x80 + r % 64) ∷ s) ≡ some (r, 1)
  unfolding decode_rune
  decode_two s h k = ground arith

  decode_three :
      (s : Text)
      → 0x800 ≤ r
      → r < 0x10000
      → Scalar r
      → decode_rune ((0xe0 + r / 4096) ∷ (0x80 + r / 64 % 64) ∷ (0x80 + r % 64) ∷ s) ≡ some (r, 2)
  unfolding decode_rune
  decode_three s h k z = ground arith

  decode_four :
      (s : Text)
      → 0x10000 ≤ r
      → Scalar r
      → decode_rune (
          (0xf0 + r / 262144) ∷ (0x80 + r / 4096 % 64) ∷ (0x80 + r / 64 % 64) ∷ (0x80 + r % 64) ∷ s)
        ≡ some (r, 3)
  unfolding decode_rune
  decode_four s h z = ground arith

module _ (r : ℕ) (s : Text) where
  -- The rune at the front of a text is read back.
  abbrev Back : Text → Type 0
  Back front =
      (runes_from 0 (front ++ s) ≡ r ∷ runes_from 0 s)
      × (valid_from 0 (front ++ s) ≡ valid_from 0 s)

  restored_one : r < 0x80 → Back (r ∷ [])
  unfolding runes_from valid_from decode_rune
  restored_one h = ground arith

  restored_two : 0x80 ≤ r → r < 0x800 → Back ((0xc0 + r / 64) ∷ (0x80 + r % 64) ∷ [])
  unfolding runes_from valid_from
  restored_two h k = rw (decode_two r s h k) (refl, refl)

  restored_three :
      0x800 ≤ r
      → r < 0x10000
      → Scalar r
      → Back ((0xe0 + r / 4096) ∷ (0x80 + r / 64 % 64) ∷ (0x80 + r % 64) ∷ [])
  unfolding runes_from valid_from
  restored_three h k z = rw (decode_three r s h k z) (refl, refl)

  restored_four :
      0x10000 ≤ r
      → Scalar r
      → Back (
          (0xf0 + r / 262144)
          ∷ (0x80 + r / 4096 % 64)
          ∷ (0x80 + r / 64 % 64)
          ∷ (0x80 + r % 64)
          ∷ [])
  unfolding runes_from valid_from
  restored_four h z = rw (decode_four r s h z) (refl, refl)

  encode_rune-Back : Scalar r → Back (encode_rune r)
  encode_rune-Back z = elim (Bool-cases (ltb r 0x80)) [
    | inl a ↦ rw (encode_one r (ltb→lt _ _ a)) (restored_one (ltb→lt _ _ a))
    | inr a ↦ elim (Bool-cases (ltb r 0x800)) [
      | inl b ↦
          let lo = ltb-false→le _ _ a in
          let hi = ltb→lt _ _ b in rw (encode_two r lo hi) (restored_two lo hi)
      | inr b ↦ elim (Bool-cases (ltb r 0x10000)) [
        | inl c ↦
            let lo = ltb-false→le _ _ b in
            let hi = ltb→lt _ _ c in rw (encode_three r lo hi z) (restored_three lo hi z)
        | inr c ↦ let lo = ltb-false→le _ _ c in rw (encode_four r lo z) (restored_four lo z)
      ]
    ]
  ]

-- `range` over `string(runes)` yields the runes, and the string is valid.
pub runes_from-from_runes : (rs : List ℕ) → AllScalar rs → runes_from 0 (from_runes rs) ≡ rs
unfolding from_runes runes_from
runes_from-from_runes [] z = refl
runes_from-from_runes (r ∷ rs) (z, zs) =
    (encode_rune-Back r (from_runes rs) z).0 ∙ ap (λ t. r ∷ t) (runes_from-from_runes rs zs)

pub valid_from-from_runes : (rs : List ℕ) → AllScalar rs → valid_from 0 (from_runes rs) ≡ true
unfolding from_runes valid_from
valid_from-from_runes [] z = refl
valid_from-from_runes (r ∷ rs) (z, zs) =
    (encode_rune-Back r (from_runes rs) z).1 ∙ valid_from-from_runes rs zs

plain_unit :
    (r : ℕ) (us : List ℕ)
    → r < 0x10000
    → Scalar r
    → utf16_from false (r ∷ us) ≡ r ∷ utf16_from false us
unfolding utf16_from
plain_unit r [] h z = ground arith
plain_unit r (v ∷ us) h z = ground arith

module _ (r : ℕ) (us : List ℕ) where
  pair_units :
      0x10000 ≤ r
      → Scalar r
      → utf16_from false ((0xd7c0 + r / 1024) ∷ (0xdc00 + r % 1024) ∷ us) ≡ r ∷ utf16_from false us
  unfolding utf16_from
  pair_units h z = ground arith

  units_of_back : Scalar r → utf16_from false (units_of r ++ us) ≡ r ∷ utf16_from false us
  units_of_back z =
      if_cases (λ front. utf16_from false (front ++ us) ≡ r ∷ utf16_from false us) (ltb r 0x10000) _
        _ (λ a. plain_unit r us (ltb→lt _ _ a) z) (λ a. pair_units (ltb-false→le _ _ a) z)

pub utf16_decode-utf16_encode : (rs : List ℕ) → AllScalar rs → utf16_decode (utf16_encode rs) ≡ rs
unfolding utf16_decode utf16_from
utf16_decode-utf16_encode [] z = refl
utf16_decode-utf16_encode (r ∷ rs) (z, zs) =
    units_of_back r (utf16_encode rs) z ∙ ap (λ t. r ∷ t) (utf16_decode-utf16_encode rs zs)
