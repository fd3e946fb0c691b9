-- ===== src/Unicode/Valid.antt =====
-- What decoding and encoding again makes of any bytes.
use httpssh.Base.{
  ℕ, ◌+◌, ◌*◌, ◌-◌, ◌<◌, ◌≡◌, refl, ap, arith, Bool, true, false, ◌&&◌, not, ltb, ltb→lt, if_cases,
  Option, none, some, [], ◌∷◌, ◌++◌, drop, Text,
}
use httpssh.Unicode.{
  between, second_low, second_high, decode_second, decode_third, decode_fourth, decode_rune,
  encode_rune,
}

-- The bytes that a rune was decoded from are those that encode it.
abbrev pub DecodedFrom : Text → Option (ℕ × ℕ) → Type 0
DecodedFrom s none = Unit {0}
DecodedFrom [] (some (r, more)) = ⊥
DecodedFrom (x ∷ s) (some (r, more)) = encode_rune r ++ drop more s ≡ x ∷ s

one_byte : (a : ℕ) → a < 0x80 → encode_rune a ≡ a ∷ []
unfolding encode_rune
one_byte a h = ground arith

ne_false : (b : Bool) → not b ≡ false → b ≡ true
ne_false true h = refl
ne_false false h = cc

two_bytes :
    (a b : ℕ)
    → between (second_low a) b (second_high a) ≡ true
    → between 0xc2 a 0xdf ≡ true
    → encode_rune ((a - 0xc0) * 64 + (b - 0x80)) ≡ a ∷ b ∷ []
unfolding encode_rune
two_bytes a b h k = ground arith

three_bytes :
    (a b c : ℕ)
    → between (second_low a) b (second_high a) ≡ true
    → between 0x80 c 0xbf ≡ true
    → between 0xe0 a 0xef ≡ true
    → encode_rune ((a - 0xe0) * 4096 + (b - 0x80) * 64 + (c - 0x80)) ≡ a ∷ b ∷ c ∷ []
unfolding encode_rune
three_bytes a b c h k l = ground arith

four_bytes :
    (a b c d : ℕ)
    → between (second_low a) b (second_high a) ≡ true
    → between 0x80 c 0xbf ≡ true
    → (between 0x80 d 0xbf && between 0xf0 a 0xf4) ≡ true
    → encode_rune ((a - 0xf0) * 262144 + (b - 0x80) * 4096 + (c - 0x80) * 64 + (d - 0x80))
      ≡ a ∷ b ∷ c ∷ d ∷ []
unfolding encode_rune
four_bytes a b c d h k l = ground arith

pub encode_rune-decode_rune : (s : Text) → DecodedFrom s (decode_rune s)
unfolding decode_rune
encode_rune-decode_rune [] = tt
encode_rune-decode_rune (a ∷ s) =
    if_cases (DecodedFrom (a ∷ s)) (ltb a 0x80) _ _
      (λ h. ap (λ t. t ++ s) (one_byte a (ltb→lt _ _ h))) (λ _. second s)
  where
    fourth :
        (b c : ℕ) (s : Text)
        → between (second_low a) b (second_high a) ≡ true
        → between 0x80 c 0xbf ≡ true
        → DecodedFrom (a ∷ b ∷ c ∷ s) (decode_fourth a b c s)
    fourth b c [] h k = tt
    fourth b c (d ∷ s) h k =
        if_cases (DecodedFrom (a ∷ b ∷ c ∷ d ∷ s)) (between 0x80 d 0xbf && between 0xf0 a 0xf4) _ _
          (λ l. ap (λ t. t ++ s) (four_bytes a b c d h k l)) (λ _. tt)

    third :
        (b : ℕ) (s : Text)
        → between (second_low a) b (second_high a) ≡ true
        → DecodedFrom (a ∷ b ∷ s) (decode_third a b s)
    third b [] h = tt
    third b (c ∷ s) h =
        if_cases (DecodedFrom (a ∷ b ∷ c ∷ s)) (not (between 0x80 c 0xbf)) _ _ (λ _. tt)
          (λ k.
            if_cases (DecodedFrom (a ∷ b ∷ c ∷ s)) (between 0xe0 a 0xef) _ _
              (λ l. ap (λ t. t ++ s) (three_bytes a b c h (ne_false _ k) l))
              (λ _. fourth b c s h (ne_false _ k)))

    second : (s : Text) → DecodedFrom (a ∷ s) (decode_second a s)
    second [] = tt
    second (b ∷ s) =
        if_cases (DecodedFrom (a ∷ b ∷ s)) (not (between (second_low a) b (second_high a))) _ _
          (λ _. tt)
          (λ h.
            if_cases (DecodedFrom (a ∷ b ∷ s)) (between 0xc2 a 0xdf) _ _
              (λ k. ap (λ t. t ++ s) (two_bytes a b (ne_false _ h) k))
              (λ _. third b s (ne_false _ h)))
