-- ===== src/FileApi/Decoding.antt =====
-- relay/internal/fileapi/service.go: how the bytes of a file become a text.
--
-- The decoder of Shift_JIS is third-party code: `shift_jis` is what a reader over it yields, nothing
-- where it fails.
pub mod Encodings
pub mod Soundness
mod Tests
use httpssh.Base.{
  ℕ, ◌+◌, ◌*◌, ◌%◌, Bool, true, false, not, ◌&&◌, ◌||◌, Option, none, some, List, [], ◌∷◌, ltb,
  ◌==◌, if◌then◌else◌, length, drop, Text, codes, str_eq, has_prefix, contains_byte,
}
use httpssh.Unicode.{rune_error, runes_from, valid_from, from_runes, utf16_decode}
use httpssh.FileApi.{not_text, Outcome, good, bad}

abbrev pub is_text_rune : ℕ → Bool
is_text_rune r =
    r == 9 || r == 10 || r == 13 || r == 12 || not (r == rune_error || r == 0 || ltb r 0x20)

pub all_text : List ℕ → Bool
all_text [] = true
all_text (r ∷ rs) = if is_text_rune r then all_text rs else false

unfoldable pub looks_like_text : Text → Bool
unfolding all_text runes_from
looks_like_text text = all_text (runes_from 0 text)

-- `binary.LittleEndian` and `binary.BigEndian`: their `Uint16` of two bytes.
abbrev pub ByteOrder : Type 0
ByteOrder = ℕ → ℕ → ℕ

abbrev pub little_endian : ByteOrder
little_endian a b = a + b * 256

abbrev pub big_endian : ByteOrder
big_endian a b = a * 256 + b

unfoldable pub units : ByteOrder → Text → List ℕ
units order [] = []
units order (a ∷ []) = []
units order (a ∷ b ∷ s) = order a b ∷ units order s

unfoldable pub decode_utf16 : ByteOrder → Text → Option Text
unfolding units utf16_decode from_runes
decode_utf16 order s =
    if not (length s % 2 == 0) then none else some (from_runes (utf16_decode (units order s)))

-- A text that looks like one, with the name of its encoding.
abbrev pub text_in : Text → Option Text → Outcome (Text × Text)
text_in encoding none = bad not_text
text_in encoding (some text) =
    if not (looks_like_text text) then bad not_text else good (text, encoding)

abbrev pub utf8_bom : Text
utf8_bom = 0xef ∷ 0xbb ∷ 0xbf ∷ []

abbrev pub utf16le_bom : Text
utf16le_bom = 0xff ∷ 0xfe ∷ []

abbrev pub utf16be_bom : Text
utf16be_bom = 0xfe ∷ 0xff ∷ []

-- `string(s)` where `utf8.Valid(s)`
abbrev pub valid_text : Text → Option Text
valid_text s = if valid_from 0 s then some s else none

-- A file without a mark of its encoding.
pub decode_unmarked : (Text → Option Text) → Text → Outcome (Text × Text)
unfolding contains_byte looks_like_text valid_from
decode_unmarked shift_jis s =
    if not (contains_byte s 0) && valid_from 0 s
    then text_in (codes "utf-8") (some s)
    else if contains_byte s 0
    then bad not_text
    else text_in (codes "shift_jis") (shift_jis s)

unfoldable pub decode_text : (Text → Option Text) → Text → Outcome (Text × Text)
unfolding has_prefix decode_utf16 decode_unmarked
decode_text shift_jis [] = good ([], codes "utf-8")
decode_text shift_jis (x ∷ s) =
    let bytes = x ∷ s in
    if has_prefix bytes utf8_bom
    then text_in (codes "utf-8") (valid_text (drop 3 bytes))
    else if has_prefix bytes utf16le_bom
    then text_in (codes "utf-16le") (decode_utf16 little_endian (drop 2 bytes))
    else if has_prefix bytes utf16be_bom
    then text_in (codes "utf-16be") (decode_utf16 big_endian (drop 2 bytes))
    else decode_unmarked shift_jis bytes
