-- ===== src/FileApi/Tests.antt =====
-- relay/internal/fileapi/service.go: a small file system.
use httpssh.Base.{
  true, Option, some, ◌⊎◌, inr, none, false, Bool, sym, ap, subst, if_cases, str_eq_iff, ◌≡◌, refl,
  inl, [], ◌∷◌, Text, codes, str_eq, has_prefix, trim_space, space_width, last_space_width,
}
use httpssh.FileApi.{
  Entry, good, bad, forbidden, ListResult, leads_out, inside_by, inside_root, target_of, relative,
  resolve_real, resolve_base, normalize_stat, normalize_real, normalize_base, join_relative,
  text_less, entry_less, insert_entry, sort_entries, child_of, entry_at, add_entry, collect,
  list_items, list_stat, list_resolved, list_in, list_at,
}
use httpssh.Fixtures.{home, disk}
use httpssh.Handler.{segments}
use httpssh.FileApi.Contained.{Under, LeadsUp, RelIsLexical, IsContained, resolve_base-IsContained}
use httpssh.FileApi.Order.{IsListing, list_at-IsListing}
use httpssh.FileApi.Reopen.{KeepsSlashes, LeadsTo, list_at-LeadsTo}

o_prefix : Option Text → Bool
o_prefix none = false
o_prefix (some r) = has_prefix r (codes "../")

disk-RelIsLexical : RelIsLexical disk segments home
unfolding segments has_prefix o_prefix
disk-RelIsLexical target r =
    let P : Option Text → Type 0 = λ o. o ≡ some r → LeadsUp disk r ⊎ Under segments home target in
    let b : Text = codes "/home/b" in
    let a : Text = codes "/home/a" in
    if_cases P (str_eq home target) _ _
      (λ e k. inr ([], ap segments (sym ((str_eq_iff home target).0 e))))
      (λ _.
        if_cases P (str_eq target b) _ _
          (λ e k. inr (codes "b" ∷ [], ap segments ((str_eq_iff target b).0 e)))
          (λ _.
            if_cases P (str_eq target a) _ _
              (λ e k. inr (codes "a" ∷ [], ap segments ((str_eq_iff target a).0 e)))
              (λ _ k. inl (inr (outside k)))))
  where
    outside : some (codes "../etc") ≡ some r → has_prefix r (codes "../") ≡ true
    outside k = subst (λ (o : Option Text). o_prefix o ≡ true) k refl

resolve_base-IsContained_example :
    IsContained disk segments home (codes "b") (resolve_base disk home (codes "b"))
resolve_base-IsContained_example =
    resolve_base-IsContained disk segments home (codes "b") disk-RelIsLexical

link_is_forbidden : resolve_base disk home (codes "out") ≡ bad forbidden
unfolding resolve_base target_of inside_root inside_by leads_out resolve_real relative str_eq
    has_prefix trim_space space_width last_space_width
link_is_forbidden = refl

abbrev entry_b : Entry
entry_b = record {
  name = codes "b";
  path = codes "b";
  type = codes "directory";
  size = 5;
  modified_at = 1;
}

abbrev listing : ListResult
listing = record {
  root = [];
  path = [];
  entries =
      entry_b
      ∷ record {
        name = codes "a";
        path = codes "a";
        type = codes "file";
        size = 5;
        modified_at = 1;
      }
      ∷ [];
}

lists_home : list_at disk home [] ≡ good listing
unfolding list_at list_in list_resolved list_stat list_items collect add_entry entry_at child_of
    join_relative sort_entries insert_entry entry_less text_less normalize_base normalize_real
    normalize_stat resolve_base target_of inside_root inside_by leads_out resolve_real relative
    str_eq has_prefix trim_space space_width last_space_width
lists_home = refl

list_at-IsListing_example : IsListing disk home [] listing
list_at-IsListing_example = list_at-IsListing disk home [] listing lists_home

disk-KeepsSlashes : KeepsSlashes disk
disk-KeepsSlashes = record { and_back = λ p. refl; spaces = λ p h. h }

list_at-LeadsTo_example :
    (base : Text) × (normalize_base disk home ≡ good base) × LeadsTo disk base entry_b
list_at-LeadsTo_example =
    list_at-LeadsTo disk home [] listing entry_b disk-KeepsSlashes lists_home (inl refl)
      (unfold trim_space space_width last_space_width in refl)
