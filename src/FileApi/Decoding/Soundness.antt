-- ===== src/FileApi/Decoding/Soundness.antt =====
-- relay/internal/fileapi/service.go: what every text is that `decodeText` gives.
use httpssh.Base.{
  ℕ, zero, suc, ◌≡◌, ◌⊎◌, inl, inr, refl, subst, sym, Bool, true, false, not, ◌&&◌, Option, none,
  some, [], ◌∷◌, if◌then◌else◌, if_cases, is_some, drop, Text, codes, has_prefix, contains_byte,
}
use httpssh.Unicode.{decode_rune, rune_or_error, more_bytes, runes_from, valid_from}
use httpssh.FileApi.{not_text, Outcome, good, bad}
use httpssh.FileApi.Decoding.Encodings.{decode_text_chain}
use httpssh.FileApi.Decoding.{
  is_text_rune, all_text, looks_like_text, little_endian, big_endian, decode_utf16, text_in,
  utf8_bom, utf16le_bom, utf16be_bom, valid_text, decode_unmarked, decode_text,
}

-- A text that looks like one is valid UTF-8.
valid_from_text :
    (skip : ℕ) (s : Text) → all_text (runes_from skip s) ≡ true → valid_from skip s ≡ true
unfolding runes_from valid_from all_text
valid_from_text skip [] h = refl
valid_from_text (suc skip) (x ∷ s) h = valid_from_text skip s h
valid_from_text zero (x ∷ s) h = next (decode_rune (x ∷ s)) h (λ k. valid_from_text k s)
  where
    next :
        (d : Option (ℕ × ℕ))
        → all_text (rune_or_error d ∷ runes_from (more_bytes d) s) ≡ true
        → ((k : ℕ) → all_text (runes_from k s) ≡ true → valid_from k s ≡ true)
        → (is_some d && valid_from (more_bytes d) s) ≡ true
    next none k v = cc
    next (some (r, more)) k v = v more (rest (is_text_rune r) k)
      where
        rest :
            (b : Bool)
            → (if b then all_text (runes_from more s) else false) ≡ true
            → all_text (runes_from more s) ≡ true
        rest true k = k
        rest false k = cc

-- The names of the encodings.
abbrev pub IsEncoding : Text → Type 0
IsEncoding e =
    (e ≡ codes "utf-8") ⊎ (e ≡ codes "utf-16le") ⊎ (e ≡ codes "utf-16be") ⊎ (e ≡ codes "shift_jis")

abbrev pub Decoded : Text → Text → Type 0
Decoded text encoding =
    (looks_like_text text ≡ true) × (valid_from 0 text ≡ true) × IsEncoding encoding

abbrev Sound : Outcome (Text × Text) → Type 0
Sound o = (t e : Text) → o ≡ good (t, e) → Decoded t e

text_in-Sound : (e : Text) (o : Option Text) → IsEncoding e → Sound (text_in e o)
text_in-Sound e none i t e₂ h = cc
text_in-Sound e (some s) i t e₂ h = looked (looks_like_text s) refl h
  where
    unpack : {y : Text × Text} → good (s, e) ≡ good y → (s, e) ≡ y
    unpack q = cc

    looked :
        (b : Bool)
        → looks_like_text s ≡ b
        → ◌≡◌ {A = Outcome (Text × Text)}
            (if not b then bad not_text else good (s, e))
            (good (t, e₂))
        → Decoded t e₂
    looked false l k = cc
    looked true l k =
        subst (λ (y : Text × Text). Decoded y.0 y.1) (unpack k)
          (l, valid_from_text 0 s (unfold looks_like_text in l), i)

decode_unmarked-Sound :
    (shift_jis : Text → Option Text) (bytes : Text) → Sound (decode_unmarked shift_jis bytes)
unfolding decode_unmarked
decode_unmarked-Sound shift_jis bytes =
    if_cases Sound (not (contains_byte bytes 0) && valid_from 0 bytes) _ _
      (λ a. text_in-Sound (codes "utf-8") (some bytes) (inl refl))
      (λ a.
        if_cases Sound (contains_byte bytes 0) _ _ (λ b t e h. cc)
          (λ b. text_in-Sound (codes "shift_jis") (shift_jis bytes) (inr (inr (inr refl)))))

-- Whatever the bytes of a file are, and whatever the decoder of Shift_JIS makes of them: the text of a
-- document is valid UTF-8 without control characters other than tab, line feed, form feed and carriage
-- return and without the replacement character, and its encoding is one of the four.
pub decode_text-Decoded :
    (shift_jis : Text → Option Text) (bytes text encoding : Text)
    → decode_text shift_jis bytes ≡ good (text, encoding)
    → Decoded text encoding
decode_text-Decoded shift_jis bytes text encoding h =
    subst Sound (sym (decode_text_chain shift_jis bytes))
      (if_cases Sound (has_prefix bytes utf8_bom) _ _
        (λ a. text_in-Sound (codes "utf-8") (valid_text (drop 3 bytes)) (inl refl))
        (λ a.
          if_cases Sound (has_prefix bytes utf16le_bom) _ _
            (λ b.
              text_in-Sound (codes "utf-16le") (decode_utf16 little_endian (drop 2 bytes))
                (inr (inl refl)))
            (λ b.
              if_cases Sound (has_prefix bytes utf16be_bom) _ _
                (λ c.
                  text_in-Sound (codes "utf-16be") (decode_utf16 big_endian (drop 2 bytes))
                    (inr (inr (inl refl))))
                (λ c. decode_unmarked-Sound shift_jis bytes))))
      text encoding h
