-- ===== src/Base/Bytes.antt =====
-- Go strings and byte slices: lists of bytes, with what the relay uses of `strings` and `bytes`.
use Prim.Native.Nat.{ℕ, zero, suc, ◌+◌, ◌-◌, ◌*◌, ◌/◌, ◌%◌}
use Prim.Native.Char.{code}
use Prim.Native.String.{String}
use mathlib.Core.Path.{◌≡◌, refl, ap, ◌∙◌}
use mathlib.Core.Logic.{◌↔◌, ◌≢◌, inl, inr}
use mathlib.Core.Bool.{Bool, true, false, ◌&&◌, ◌||◌}
use mathlib.Core.List.{List, [], ◌∷◌, ◌++◌, reverse, reverse-reverse}
use native.Mathlib.Omega.{arith}
use httpssh.Base.Tests.{leb, ◌==◌, if◌then◌else◌, Bool-cases}
use httpssh.Base.Lists.{length}

abbrev pub Text : Type 0
Text = List ℕ

-- A literal of the source, which is ASCII, as its bytes.
abbrev pub codes : String → Text
codes String.[] = []
codes (String.◌∷◌ c s) = code c ∷ codes s

-- `s == t`
unfoldable pub str_eq : Text → Text → Bool
str_eq [] [] = true
str_eq (x ∷ s) (y ∷ t) = x == y && str_eq s t
str_eq _ _ = false

pub str_eq_iff : (s t : Text) → (str_eq s t ≡ true) ↔ (s ≡ t)
unfolding str_eq
str_eq_iff (x ∷ s) (y ∷ t) = ground (arith, str_eq_iff s t)
str_eq_iff _ _ = ground arith

pub str_eq_refl : (s : Text) → str_eq s s ≡ true
str_eq_refl s = (str_eq_iff s s).1 refl

pub str_eq_ne : (s t : Text) → s ≢ t → str_eq s t ≡ false
str_eq_ne s t h = elim (Bool-cases (str_eq s t)) [
  | inl e ↦ absurd (h ((str_eq_iff s t).0 e))
  | inr e ↦ e
]

-- `strings.HasPrefix(s, prefix)`
unfoldable pub has_prefix : Text → Text → Bool
has_prefix s [] = true
has_prefix [] (y ∷ prefix) = false
has_prefix (x ∷ s) (y ∷ prefix) = x == y && has_prefix s prefix

pub has_prefix-append : (prefix s : Text) → has_prefix (prefix ++ s) prefix ≡ true
unfolding has_prefix
has_prefix-append [] s = refl
has_prefix-append (x ∷ prefix) s = ground (arith, has_prefix-append prefix s)

-- `bytes.Contains(s, sub)`
unfoldable pub contains : Text → Text → Bool
unfolding has_prefix
contains [] sub = has_prefix [] sub
contains (x ∷ s) sub = has_prefix (x ∷ s) sub || contains s sub

-- `bytes.Count(s, sub)` for a `sub` that is not empty: occurrences that do not overlap. The number
-- counts the bytes of an occurrence that are still to be passed over.
count_from : ℕ → Text → Text → ℕ
unfolding has_prefix
count_from skip [] sub = 0
count_from (suc skip) (x ∷ s) sub = count_from skip s sub
count_from zero (x ∷ s) sub =
    let hit = has_prefix (x ∷ s) sub in
    (if hit then 1 else 0) + count_from (if hit then length sub - 1 else 0) s sub

unfoldable pub count : Text → Text → ℕ
unfolding count_from
count = count_from 0

-- Cuts of `width s` bytes from the front of `s` until there is nothing more to cut. The number counts
-- the bytes of a cut that are still to go.
unfoldable pub cut_front : (Text → ℕ) → ℕ → Text → Text
cut_front width skip [] = []
cut_front width (suc skip) (x ∷ s) = cut_front width skip s
cut_front width zero (x ∷ s) = elim (width (x ∷ s)) [
  | zero ↦ x ∷ s
  | suc skip ↦ cut_front width skip s
]

-- The characters that `unicode.IsSpace` takes, by the bytes of their encoding.
abbrev is_space₁ : ℕ → Bool
is_space₁ a = (leb 9 a && leb a 13) || a == 32

abbrev is_space₂ : ℕ → ℕ → Bool
is_space₂ a b = a == 0xc2 && (b == 0x85 || b == 0xa0)

abbrev is_space₃ : ℕ → ℕ → ℕ → Bool
is_space₃ a b c =
    (a == 0xe1 && b == 0x9a && c == 0x80)
    || (a == 0xe2
        && b == 0x80
        && ((leb 0x80 c && leb c 0x8a) || c == 0xa8 || c == 0xa9 || c == 0xaf))
    || (a == 0xe2 && b == 0x81 && c == 0x9f)
    || (a == 0xe3 && b == 0x80 && c == 0x80)

-- The length of the space that a text begins with, 0 if it begins with none.
unfoldable pub space_width : Text → ℕ
space_width [] = 0
space_width (a ∷ []) = if is_space₁ a then 1 else 0
space_width (a ∷ b ∷ []) = if is_space₁ a then 1 else if is_space₂ a b then 2 else 0
space_width (a ∷ b ∷ c ∷ s) =
    if is_space₁ a then 1 else if is_space₂ a b then 2 else if is_space₃ a b c then 3 else 0

-- The same of the space that a text ends with; the text is given last byte first.
unfoldable pub last_space_width : Text → ℕ
last_space_width [] = 0
last_space_width (a ∷ []) = if is_space₁ a then 1 else 0
last_space_width (a ∷ b ∷ []) = if is_space₁ a then 1 else if is_space₂ b a then 2 else 0
last_space_width (a ∷ b ∷ c ∷ s) =
    if is_space₁ a then 1 else if is_space₂ b a then 2 else if is_space₃ c b a then 3 else 0

-- Cuts at both ends.
unfoldable pub trim_by : (Text → ℕ) → (Text → ℕ) → Text → Text
unfolding cut_front
trim_by first last s = reverse (cut_front last 0 (reverse (cut_front first 0 s)))

-- `strings.TrimSpace`
unfoldable pub trim_space : Text → Text
unfolding trim_by space_width last_space_width
trim_space = trim_by space_width last_space_width

-- The length of the byte `b` at the front.
unfoldable pub byte_width : ℕ → Text → ℕ
byte_width b [] = 0
byte_width b (x ∷ s) = if x == b then 1 else 0

-- `strings.Trim(s, cutset)` for a cutset of one ASCII byte.
unfoldable pub trim : ℕ → Text → Text
unfolding trim_by byte_width
trim b = trim_by (byte_width b) (byte_width b)

-- `strings.ContainsAny(s, chars)` for ASCII `chars`.
unfoldable pub contains_byte : Text → ℕ → Bool
contains_byte [] b = false
contains_byte (x ∷ s) b = x == b || contains_byte s b

unfoldable pub contains_any : Text → Text → Bool
unfolding contains_byte
contains_any [] chars = false
contains_any (x ∷ s) chars = contains_byte chars x || contains_any s chars

-- `hex.EncodeToString`
abbrev hex_digit : ℕ → ℕ
hex_digit d = if leb d 9 then d + b'0' else d + (b'a' - 10)

unfoldable pub hex_encode : Text → Text
hex_encode [] = []
hex_encode (x ∷ s) = hex_digit (x / 16) ∷ hex_digit (x % 16) ∷ hex_encode s

pub length-hex_encode : (s : Text) → length (hex_encode s) ≡ 2 * length s
unfolding hex_encode
length-hex_encode [] = omega arith
length-hex_encode (x ∷ s) = omega (arith, length-hex_encode s)

cut_front_zero : (width : Text → ℕ) (s : Text) → width s ≡ 0 → cut_front width 0 s ≡ s
unfolding cut_front
cut_front_zero width [] h = refl
cut_front_zero width (x ∷ s) h = rw (h, cut_front)

-- A text with nothing to cut at either end stays.
pub trim_by_clean :
    (first last : Text → ℕ) (s : Text)
    → first s ≡ 0
    → last (reverse s) ≡ 0
    → trim_by first last s ≡ s
unfolding trim_by
trim_by_clean first last s f l =
    ap (λ t. reverse (cut_front last 0 (reverse t))) (cut_front_zero first s f)
    ∙ ap reverse (cut_front_zero last (reverse s) l)
    ∙ reverse-reverse s

-- `strings.TrimRight(s, cutset)` for a cutset of one ASCII byte.
unfoldable pub trim_right : ℕ → Text → Text
unfolding cut_front byte_width
trim_right b s = reverse (cut_front (byte_width b) 0 (reverse s))
