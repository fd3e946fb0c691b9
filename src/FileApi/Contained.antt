-- ===== src/FileApi/Contained.antt =====
-- relay/internal/fileapi/service.go: where the paths that `resolveBase` gives lie, by their elements.
use httpssh.Base.{
  ◌≡◌, ◌⊎◌, inl, inr, refl, true, Option, none, some, List, [], ◌++◌, arith, Bool-cases, Text,
  codes, str_eq, str_eq_iff, has_prefix, subst,
}
use httpssh.FileApi.{
  FileSystem, forbidden, path_not_found, io, Outcome, good, bad, found, dot, dot_dot, leads_out,
  inside_by, inside_root, target_of, resolve_base,
}
use httpssh.FileApi.Jail.{IsJailed, resolve_base-IsJailed}

-- A path whose elements begin with those of the base. `elements` cuts a clean absolute path at its
-- separators.
abbrev pub Under : (Text → List Text) → Text → Text → Type 0
Under elements base path = (names : List Text) × (elements path ≡ elements base ++ names)

-- A relative path that is `..`, or begins with it.
abbrev pub LeadsUp : FileSystem → Text → Type 0
LeadsUp fs r = (r ≡ codes "..") ⊎ (has_prefix r (codes ".." ++ fs.separator) ≡ true)

-- `filepath.Rel`: what it answers, joined to the base, is the target; so an answer that does not begin with
-- `..` says that the target is under the base.
abbrev pub RelIsLexical : FileSystem → (Text → List Text) → Text → Type 0
RelIsLexical fs elements base =
    (target r : Text) → fs.rel base target ≡ some r → LeadsUp fs r ⊎ Under elements base target

-- What `resolveBase` answers, with the places of what was asked for and of what it is behind every link.
abbrev pub IsContained :
    FileSystem → (Text → List Text) → Text → Text → Outcome (Text × Text) → Type 0
IsContained fs elements base requested (good (abs, way)) =
    (real : Text) × (fs.eval_symlinks (target_of fs base requested) ≡ found real)
    × (abs ≡ fs.clean real)
    × Under elements base (target_of fs base requested)
    × Under elements base abs
    × (((fs.rel base abs ≡ some (codes ".")) × (way ≡ [])) ⊎ (fs.rel base abs ≡ some way))
IsContained fs elements base requested (bad e) =
    (e ≡ forbidden) ⊎ (e ≡ path_not_found) ⊎ ((message : Text) × (e ≡ io message))

-- A path that passes the test does not lead up.
inside_by-stays : (fs : FileSystem) (r : Text) → inside_by fs (some r) ≡ true → LeadsUp fs r → ⊥
unfolding inside_by leads_out has_prefix str_eq
inside_by-stays fs r h (inl e) = no_way (subst (λ x. inside_by fs (some x) ≡ true) e h)
  where
    no_way : inside_by fs (some (codes "..")) ≡ true → ⊥
    no_way k = cc
inside_by-stays fs r h (inr up) = elim (Bool-cases (str_eq r dot)) [
  | inl e ↦
      no_prefix
        (subst (λ x. has_prefix x (dot_dot ++ fs.separator) ≡ true) ((str_eq_iff r dot).0 e) up)
  | inr e ↦ ground (arith, h, e, up)
]
  where
    no_prefix : has_prefix dot (dot_dot ++ fs.separator) ≡ true → ⊥
    no_prefix k = cc

inside_root-Under :
    (fs : FileSystem) (elements : Text → List Text) (base target : Text) (o : Option Text)
    → RelIsLexical fs elements base
    → fs.rel base target ≡ o
    → inside_by fs o ≡ true
    → Under elements base target
unfolding inside_by
inside_root-Under fs elements base target none lexical e h = cc
inside_root-Under fs elements base target (some r) lexical e h = elim (lexical target r e) [
  | inl up ↦ absurd (inside_by-stays fs r h up)
  | inr under ↦ under
]

InJail-Under :
    (fs : FileSystem) (elements : Text → List Text) (base requested : Text)
    (o : Outcome (Text × Text))
    → RelIsLexical fs elements base
    → IsJailed fs base requested o
    → IsContained fs elements base requested o
unfolding inside_root
InJail-Under fs elements base requested (bad e) lexical j = j
InJail-Under fs elements base requested (good (abs, way)) lexical j =
    let (real, at, same) = j.real in
    (
      real,
      at,
      same,
      inside_root-Under fs elements base (target_of fs base requested) _ lexical refl
          j.asked_inside,
      inside_root-Under fs elements base abs _ lexical refl j.inside,
      elim j.way [ inl z ↦ inl z | inr z ↦ inr z.0 ],
    )

-- Whatever is asked for, a path that `resolveBase` gives lies under the base element by element, both as
-- it was asked for and behind every symbolic link, and the relative path beside it is the way from the
-- base to it; otherwise it answers that the path is forbidden or not there, or with an error of the
-- host. (`filepath.Rel` is taken to answer as it is documented.)
pub resolve_base-IsContained :
    (fs : FileSystem) (elements : Text → List Text) (base requested : Text)
    → RelIsLexical fs elements base
    → IsContained fs elements base requested (resolve_base fs base requested)
resolve_base-IsContained fs elements base requested lexical =
    InJail-Under fs elements base requested (resolve_base fs base requested) lexical
      (resolve_base-IsJailed fs base requested)
