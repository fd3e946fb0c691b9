-- ===== src/FileApi/Jail.antt =====
-- relay/internal/fileapi/service.go: what `resolveBase` lets out.
use httpssh.Base.{
  ◌≡◌, ◌⊎◌, inl, inr, refl, sym, ap, ◌∙◌, Bool, true, false, not, Option, none, some, [], arith,
  Bool-cases, Text, str_eq, str_eq_iff, subst,
}
use httpssh.FileApi.{
  FileSystem, forbidden, path_not_found, io, Outcome, good, bad, Found, found, missing, broken, dot,
  leads_out, inside_by, inside_root, target_of, relative, resolve_real, resolve_base,
}

-- The real path of what was asked for lies below the base, by its own name and by the one asked for, and
-- the relative path that is given out is the way there, which does not lead up.
pub record InJail (fs : FileSystem) (base requested abs r : Text) : Type 0 where
  pub asked_inside : inside_root fs base (target_of fs base requested) ≡ true
  pub real :
      (p : Text) × (fs.eval_symlinks (target_of fs base requested) ≡ found p) × (abs ≡ fs.clean p)
  pub inside : inside_root fs base abs ≡ true
  pub way :
      ((fs.rel base abs ≡ some dot) × (r ≡ []))
      ⊎ ((fs.rel base abs ≡ some r) × (leads_out fs r ≡ false))

-- What `resolveBase` answers.
abbrev pub IsJailed : FileSystem → Text → Text → Outcome (Text × Text) → Type 0
IsJailed fs base requested (good (abs, r)) = InJail fs base requested abs r
IsJailed fs base requested (bad e) =
    (e ≡ forbidden) ⊎ (e ≡ path_not_found) ⊎ ((message : Text) × (e ≡ io message))

inside_way :
    (fs : FileSystem) (o : Option Text) {r : Text}
    → inside_by fs o ≡ true
    → o ≡ some r
    → str_eq r dot ≡ false
    → leads_out fs r ≡ false
unfolding inside_by
inside_way fs none h e n = cc
inside_way fs (some x) {r} h e n =
    let same : x ≡ r = cc in
    subst (λ t. leads_out fs t ≡ false) same
      (not_true (leads_out fs x) (ground (arith, h, n, ap (λ t. str_eq t dot) same)))
  where
    not_true : (b : Bool) → not b ≡ true → b ≡ false
    not_true true k = sym k
    not_true false k = refl

module _ (fs : FileSystem) (base requested : Text)
    (asked : inside_root fs base (target_of fs base requested) ≡ true) where
  IsJailed-relative :
      (p : Text) (o : Option Text)
      → fs.eval_symlinks (target_of fs base requested) ≡ found p
      → inside_root fs base (fs.clean p) ≡ true
      → fs.rel base (fs.clean p) ≡ o
      → IsJailed fs base requested (relative o (fs.clean p))
  unfolding relative
  IsJailed-relative p none e i w = inr (inr (_, refl))
  IsJailed-relative p (some r) e i w = elim (Bool-cases (str_eq r dot)) [
    | inl d ↦ rw d (record {
      asked_inside = asked;
      real = (p, e, refl);
      inside = i;
      way = inl (w ∙ ap (λ t. some t) ((str_eq_iff r dot).0 d), refl);
    })
    | inr d ↦ rw d (record {
      asked_inside = asked;
      real = (p, e, refl);
      inside = i;
      way = inr (w, inside_way fs (fs.rel base (fs.clean p)) (unfold inside_root in i) w d);
    })
  ]

  IsJailed-real :
      (f : Found Text)
      → fs.eval_symlinks (target_of fs base requested) ≡ f
      → IsJailed fs base requested (resolve_real fs base f)
  unfolding resolve_real
  IsJailed-real missing e = inr (inl refl)
  IsJailed-real (broken m) e = inr (inr (m, refl))
  IsJailed-real (found p) e = elim (Bool-cases (inside_root fs base (fs.clean p))) [
    | inl i ↦ rw i (IsJailed-relative p (fs.rel base (fs.clean p)) e i refl)
    | inr i ↦ rw i (inl refl)
  ]

-- Whatever is asked for, a path that `resolveBase` gives is below the base, both as it was asked for and
-- behind every symbolic link, and the relative path beside it is the way from the base to it, which does
-- not lead up; otherwise it answers that the path is forbidden or not there, or with an error of the
-- host.
pub resolve_base-IsJailed :
    (fs : FileSystem) (base requested : Text)
    → IsJailed fs base requested (resolve_base fs base requested)
unfolding resolve_base
resolve_base-IsJailed fs base requested =
    elim (Bool-cases (inside_root fs base (target_of fs base requested))) [
      | inl i ↦
          rw i (
            IsJailed-real fs base requested i (fs.eval_symlinks (target_of fs base requested)) refl)
      | inr i ↦ rw i (inl refl)
    ]
