-- ===== src/Cwd/Directory.antt =====
-- relay/internal/session/cwdtracker.go: `parseOSC99` on the directories of a prompt.
use mathlib.Core.List.{reverse, reverse-reverse, reverse-append, reverse-cons}
use httpssh.Base.{
  ℕ, ◌≡◌, ◌≢◌, refl, ap, ◌∙◌, Bool, true, false, some, [], ◌∷◌, ◌++◌, arith, Text, trim_space, trim,
  trim_by, trim_by_clean, cut_front, space_width, last_space_width, byte_width,
}
use httpssh.Cwd.{osc99_prefix, parse_osc99, some_text}
use httpssh.Cwd.Sequence.{IsQuiet}

-- A directory as a shell prompt may write it: not empty, and no space or double quote at either end.
pub record IsDirectory (path : Text) : Type 0 where
  pub quiet : IsQuiet path
  pub ne_nil : path ≢ []
  pub first_no_space : space_width path ≡ 0
  pub last_no_space : last_space_width (reverse path) ≡ 0
  pub first_no_quote : byte_width b'"' path ≡ 0
  pub last_no_quote : byte_width b'"' (reverse path) ≡ 0

-- The text with double quotes round it, or as it is.
abbrev pub quoted : Bool → Text → Text
quoted false path = path
quoted true path = b'"' ∷ (path ++ (b'"' ∷ []))

pub cut_quote : (s : Text) → byte_width b'"' s ≡ 0 → cut_front (byte_width b'"') 0 (b'"' ∷ s) ≡ s
unfolding cut_front byte_width
cut_quote [] h = refl
cut_quote (x ∷ s) h = rw (h, cut_front)

pub byte_width-append : (b : ℕ) (s t : Text) → s ≢ [] → byte_width b (s ++ t) ≡ byte_width b s
unfolding byte_width
byte_width-append b [] t ne = absurd (ne refl)
byte_width-append b (x ∷ s) t ne = refl

pub trim_marked :
    (path : Text)
    → byte_width b'"' path ≡ 0
    → byte_width b'"' (reverse path) ≡ 0
    → path ≢ []
    → trim b'"' (quoted true path) ≡ path
unfolding trim trim_by
trim_marked path f l ne =
    ap (λ t. reverse (cut_front (byte_width b'"') 0 (reverse t)))
      (cut_quote (path ++ (b'"' ∷ [])) (byte_width-append b'"' path (b'"' ∷ []) ne ∙ f))
    ∙ ap (λ t. reverse (cut_front (byte_width b'"') 0 t)) (reverse-append path (b'"' ∷ []))
    ∙ ap reverse (cut_quote (reverse path) l)
    ∙ reverse-reverse path

pub space_width_quote : (s : Text) → space_width (b'"' ∷ s) ≡ 0
unfolding space_width
space_width_quote [] = refl
space_width_quote (x ∷ []) = refl
space_width_quote (x ∷ y ∷ s) = refl

pub last_space_width_quote : (s : Text) → last_space_width (b'"' ∷ s) ≡ 0
unfolding last_space_width
last_space_width_quote [] = refl
last_space_width_quote (x ∷ []) = ground arith
last_space_width_quote (x ∷ y ∷ s) = ground arith

pub reverse-quoted :
    (path : Text) → reverse (quoted true path) ≡ b'"' ∷ (reverse path ++ (b'"' ∷ []))
reverse-quoted path =
    reverse-cons b'"' (path ++ (b'"' ∷ []))
    ∙ ap (λ t. t ++ (b'"' ∷ [])) (reverse-append path (b'"' ∷ []))

pub trim_space-quoted :
    (mark : Bool) (path : Text)
    → IsDirectory path
    → trim_space (quoted mark path) ≡ quoted mark path
unfolding trim_space
trim_space-quoted false path d =
    trim_by_clean space_width last_space_width path d.first_no_space d.last_no_space
trim_space-quoted true path d =
    trim_by_clean space_width last_space_width (quoted true path)
      (space_width_quote (path ++ (b'"' ∷ [])))
      (ap last_space_width (reverse-quoted path)
        ∙ last_space_width_quote (reverse path ++ (b'"' ∷ [])))

pub trim-quoted :
    (mark : Bool) (path : Text) → IsDirectory path → trim b'"' (quoted mark path) ≡ path
unfolding trim
trim-quoted false path d =
    trim_by_clean (byte_width b'"') (byte_width b'"') path d.first_no_quote d.last_no_quote
trim-quoted true path d = trim_marked path d.first_no_quote d.last_no_quote d.ne_nil

pub some_path : (path : Text) → path ≢ [] → some_text path ≡ some path
some_path [] ne = absurd (ne refl)
some_path (x ∷ path) ne = refl

pub parse_osc99-quoted :
    (mark : Bool) (path : Text)
    → IsDirectory path
    → parse_osc99 (osc99_prefix ++ quoted mark path) ≡ some path
unfolding parse_osc99
parse_osc99-quoted mark path d =
    ap (λ t. some_text (trim b'"' t)) (trim_space-quoted mark path d)
    ∙ ap some_text (trim-quoted mark path d)
    ∙ some_path path d.ne_nil
