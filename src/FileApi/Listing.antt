-- ===== src/FileApi/Listing.antt =====
-- relay/internal/fileapi/service.go: what a listing shows.
use httpssh.Base.{
  ◌≡◌, ◌↔◌, ◌⊎◌, inl, inr, refl, sym, ap, ◌∙◌, subst, Option, none, some, List, [], ◌∷◌, if_cases,
  Text,
}
use httpssh.FileApi.{
  FileSystem, FileInfo, disabled, root_not_found, forbidden, path_not_found, not_directory,
  invalid_base, not_text, too_large, invalid_config, io, Outcome, good, bad, Found, found, missing,
  broken, Entry, entry_of, child_of, entry_at, add_entry, join_relative, resolve_base, collect,
  entry_less, insert_entry, sort_entries,
}

abbrev pub Among : Entry → List Entry → Type 0
Among e [] = ⊥
Among e (x ∷ xs) = (e ≡ x) ⊎ Among e xs

-- The entry of an item whose path resolves inside the base, to something that is there.
abbrev pub ShownAs : FileSystem → Text → Text → Outcome (Text × Text) → Entry → Type 0
ShownAs fs name path x e =
    (abs : Text) × (way : Text) × (info : FileInfo) × (x ≡ good (abs, way))
    × (fs.stat abs ≡ found info)
    × (e ≡ entry_of fs name path info)

abbrev pub Shown : FileSystem → Text → Text → List Text → Entry → Type 0
Shown fs base r [] e = ⊥
Shown fs base r (name ∷ names) e =
    ShownAs fs name (join_relative fs r name) (resolve_base fs base (join_relative fs r name)) e
    ⊎ Shown fs base r names e

module _ (fs : FileSystem) (name path : Text) (e : Entry) where
  child_of_iff :
      (f : Found FileInfo)
      → (child_of fs name path f ≡ some e)
        ↔ ((info : FileInfo) × (f ≡ found info) × (e ≡ entry_of fs name path info))
  unfolding child_of
  child_of_iff (found info) = ((λ h. (info, refl, cc)), (λ (i, x, y). cc))
  child_of_iff missing = ((λ h. cc), (λ (i, x, y). cc))
  child_of_iff (broken m) = ((λ h. cc), (λ (i, x, y). cc))

  entry_at_iff :
      (x : Outcome (Text × Text)) (o : Option Entry)
      → entry_at fs name path x ≡ good o
      → (o ≡ some e) ↔ ShownAs fs name path x e
  unfolding entry_at
  entry_at_iff (good (child, way)) o h = (
    (λ k.
        let same : child_of fs name path (fs.stat child) ≡ some e = cc in
        let (info, at, y) = (child_of_iff (fs.stat child)).0 same in
        (child, way, info, refl, at, y)),
    (λ (abs, w, info, x, at, y).
        let same : child_of fs name path (fs.stat child) ≡ some e =
          (child_of_iff (fs.stat child)).1 (info, (ap fs.stat (unpack x) ∙ at), y) in
        cc),
  )
    where
      unpack : {y : Text × Text} → good (child, way) ≡ good y → child ≡ y.0
      unpack q = cc
  entry_at_iff (bad forbidden) o h = ((λ k. cc), (λ (abs, w, info, x, at, y). cc))
  entry_at_iff (bad path_not_found) o h = ((λ k. cc), (λ (abs, w, info, x, at, y). cc))
  entry_at_iff (bad disabled) o h = cc
  entry_at_iff (bad root_not_found) o h = cc
  entry_at_iff (bad not_directory) o h = cc
  entry_at_iff (bad invalid_base) o h = cc
  entry_at_iff (bad not_text) o h = cc
  entry_at_iff (bad too_large) o h = cc
  entry_at_iff (bad (invalid_config f)) o h = cc
  entry_at_iff (bad (io m)) o h = cc

-- What `add_entry` comes to where it succeeds.
add_entry_ok :
    (a : Outcome (Option Entry)) (b : Outcome (List Entry)) (es : List Entry)
    → add_entry a b ≡ good es
    → (o : Option Entry) × (rest : List Entry) × (a ≡ good o)
      × (b ≡ good rest)
      × ((e : Entry) → Among e es ↔ ((o ≡ some e) ⊎ Among e rest))
unfolding add_entry
add_entry_ok (bad x) b es h = cc
add_entry_ok (good none) b es h =
    (none, es, refl, h, λ e. ((λ k. inr k), (λ k. elim k [ inl z ↦ cc | inr z ↦ z ])))
add_entry_ok (good (some y)) (bad x) es h = cc
add_entry_ok (good (some y)) (good ys) es h = (
  some y,
  ys,
  refl,
  refl,
  λ e.
      subst (λ zs. Among e zs ↔ ((some y ≡ some e) ⊎ Among e ys)) (unpack h)
        (
          (λ k. elim k [ inl z ↦ inl (ap (λ t. some t) (sym z)) | inr z ↦ inr z ]),
          (λ k. elim k [ inl z ↦ inl cc | inr z ↦ inr z ]),
        ),
)
  where
    unpack : {zs : List Entry} → good (y ∷ ys) ≡ good zs → y ∷ ys ≡ zs
    unpack q = cc

pub collect_iff :
    (fs : FileSystem) (base r : Text) (names : List Text) (es : List Entry)
    → collect fs base r names ≡ good es
    → (e : Entry) → Among e es ↔ Shown fs base r names e
unfolding collect
collect_iff fs base r [] es h e = subst (λ zs. Among e zs ↔ ⊥) (unpack h) ((λ k. k), (λ k. k))
  where
    unpack : {zs : List Entry} → good [] ≡ good zs → [] ≡ zs
    unpack q = cc
collect_iff fs base r (name ∷ names) es h e =
    let path : Text = join_relative fs r name in
    let (o, rest, first, others, both) =
      add_entry_ok (entry_at fs name path (resolve_base fs base path)) (collect fs base r names) es
        h in
    let here = entry_at_iff fs name path e (resolve_base fs base path) o first in
    let there = collect_iff fs base r names rest others e in
    (
      (λ k. elim ((both e).0 k) [ inl z ↦ inl (here.0 z) | inr z ↦ inr (there.0 z) ]),
      (λ k. (both e).1 (elim k [ inl z ↦ inl (here.1 z) | inr z ↦ inr (there.1 z) ])),
    )

Among-insert_entry :
    (fs : FileSystem) (x : Entry) (xs : List Entry) (e : Entry)
    → Among e (insert_entry fs x xs) ↔ ((e ≡ x) ⊎ Among e xs)
unfolding insert_entry
Among-insert_entry fs x [] e = ((λ k. k), (λ k. k))
Among-insert_entry fs x (y ∷ ys) e =
    let rest = Among-insert_entry fs x ys e in
    if_cases (λ zs. Among e zs ↔ ((e ≡ x) ⊎ Among e (y ∷ ys))) (entry_less fs y x) _ _
      (λ _. (
        (λ k. elim k [
          | inl z ↦ inr (inl z)
          | inr z ↦ elim (rest.0 z) [ inl w ↦ inl w | inr w ↦ inr (inr w) ]
        ]),
        (λ k. elim k [
          | inl z ↦ inr (rest.1 (inl z))
          | inr (inl z) ↦ inl z
          | inr (inr z) ↦ inr (rest.1 (inr z))
        ]),
      ))
      (λ _. ((λ k. k), (λ k. k)))

pub Among-sort_entries :
    (fs : FileSystem) (es : List Entry) (e : Entry) → Among e (sort_entries fs es) ↔ Among e es
unfolding sort_entries
Among-sort_entries fs [] e = ((λ k. k), (λ k. k))
Among-sort_entries fs (x ∷ xs) e =
    let rest = Among-sort_entries fs xs e in
    let put = Among-insert_entry fs x (sort_entries fs xs) e in
    (
      (λ k. elim (put.0 k) [ inl z ↦ inl z | inr z ↦ inr (rest.0 z) ]),
      (λ k. put.1 (elim k [ inl z ↦ inl z | inr z ↦ inr (rest.1 z) ])),
    )
