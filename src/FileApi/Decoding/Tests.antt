-- ===== src/FileApi/Decoding/Tests.antt =====
-- relay/internal/fileapi/service.go: the bytes of small files.
use httpssh.Base.{ℕ, ◌≡◌, ◌++◌, ◌∷◌, [], inl, inr, refl, arith, List, Option, none, Text, codes}
use httpssh.Unicode.{from_runes}
use httpssh.Unicode.RoundTrip.{utf16_encode}
use httpssh.FileApi.{good}
use httpssh.FileApi.Decoding.{utf8_bom, utf16le_bom, utf16be_bom, decode_text}
use httpssh.FileApi.Decoding.Encodings.{Plain, Marked, little_bytes, big_bytes, decode_text-Plain}

abbrev no_shift_jis : Text → Option Text
no_shift_jis s = none

-- A letter, a line feed and a character outside the basic plane.
abbrev characters : List ℕ
characters = 65 ∷ 10 ∷ 0x1f600 ∷ []

characters-Plain : Plain characters
characters-Plain =
    (inl (omega arith), refl, (inl (omega arith), refl, (inr (omega arith, omega arith), refl, tt)))

decode_text-Plain_example :
    (decode_text no_shift_jis (utf8_bom ++ from_runes characters)
      ≡ good (from_runes characters, codes "utf-8"))
    × (decode_text no_shift_jis (utf16le_bom ++ little_bytes (utf16_encode characters))
        ≡ good (from_runes characters, codes "utf-16le"))
    × (decode_text no_shift_jis (utf16be_bom ++ big_bytes (utf16_encode characters))
        ≡ good (from_runes characters, codes "utf-16be"))
    × (¬ Marked characters
        → decode_text no_shift_jis (from_runes characters)
          ≡ good (from_runes characters, codes "utf-8"))
decode_text-Plain_example = decode_text-Plain no_shift_jis characters characters-Plain
