-- ===== src/FileApi/Order.antt =====
-- relay/internal/fileapi/service.go: the order of a listing, and the listing as a whole.
use httpssh.Base.{
  ◌<◌, ◌⊎◌, ℕ, ◌≡◌, ◌↔◌, inl, inr, refl, sym, ap, ◌∙◌, subst, Bool, true, false, not, List, [], ◌∷◌,
  arith, if◌then◌else◌, if_cases, Bool-cases, Text, codes, str_eq, str_eq_iff,
}
use httpssh.FileApi.{
  FileSystem, FileInfo, Outcome, good, bad, Found, found, missing, broken, Entry, ListResult,
  text_less, entry_less, insert_entry, sort_entries, resolve_base, normalize_base, collect,
  list_items, list_stat, list_resolved, list_in, list_at, not_directory,
}
use httpssh.FileApi.Listing.{Among, Shown, collect_iff, Among-sort_entries}

abbrev pub is_directory : Entry → Bool
is_directory e = str_eq e.type (codes "directory")

abbrev pub NoDirectory : List Entry → Type 0
NoDirectory [] = Unit {0}
NoDirectory (e ∷ es) = (is_directory e ≡ false) × NoDirectory es

-- Behind an entry that is no directory there is none.
abbrev pub IsGrouped : List Entry → Type 0
IsGrouped [] = Unit {0}
IsGrouped (e ∷ es) = (is_directory e ≡ false → NoDirectory es) × IsGrouped es

-- What the comparison of two entries says of their types.
entry_less_directory :
    (fs : FileSystem) (x e : Entry)
    → (entry_less fs x e ≡ true → is_directory x ≡ false → is_directory e ≡ false)
      × (entry_less fs x e ≡ false → is_directory e ≡ false → is_directory x ≡ false)
unfolding entry_less
entry_less_directory fs x e = elim (Bool-cases (str_eq x.type e.type)) [
  | inl same ↦
      let t : x.type ≡ e.type = (str_eq_iff x.type e.type).0 same in
      let types : is_directory x ≡ is_directory e = ap (λ s. str_eq s (codes "directory")) t in
      ((λ h n. sym types ∙ n), (λ h n. types ∙ n))
  | inr differ ↦ ((λ h n. ground (arith, h, n, differ)), (λ h n. ground (arith, h, n, differ)))
]

NoDirectory-insert_entry :
    (fs : FileSystem) (e : Entry) (es : List Entry)
    → is_directory e ≡ false
    → NoDirectory es
    → NoDirectory (insert_entry fs e es)
unfolding insert_entry
NoDirectory-insert_entry fs e [] n h = (n, tt)
NoDirectory-insert_entry fs e (x ∷ xs) n (y, h) =
    if_cases NoDirectory (entry_less fs x e) _ _ (λ _. (y, NoDirectory-insert_entry fs e xs n h))
      (λ _. (n, (y, h)))

IsGrouped-insert_entry :
    (fs : FileSystem) (e : Entry) (es : List Entry)
    → IsGrouped es
    → IsGrouped (insert_entry fs e es)
unfolding insert_entry
IsGrouped-insert_entry fs e [] h = ((λ _. tt), tt)
IsGrouped-insert_entry fs e (x ∷ xs) (y, h) =
    let (before, behind) = entry_less_directory fs x e in
    if_cases IsGrouped (entry_less fs x e) _ _
      (λ l. (
        (λ n. NoDirectory-insert_entry fs e xs (before l n) (y n)),
        IsGrouped-insert_entry fs e xs h,
      ))
      (λ l. ((λ n. let m = behind l n in (m, y m)), (y, h)))

IsGrouped-sort_entries : (fs : FileSystem) (es : List Entry) → IsGrouped (sort_entries fs es)
unfolding sort_entries
IsGrouped-sort_entries fs [] = tt
IsGrouped-sort_entries fs (e ∷ es) =
    IsGrouped-insert_entry fs e (sort_entries fs es) (IsGrouped-sort_entries fs es)

-- The order of the names: the first byte in which two differ decides, and a text comes before those that it
-- begins.
abbrev pub IsUpTo : Text → Text → Type 0
IsUpTo [] t = Unit {0}
IsUpTo (x ∷ s) [] = ⊥
IsUpTo (x ∷ s) (y ∷ t) = (x < y) ⊎ ((x ≡ y) × IsUpTo s t)

-- If the next entry is of the same type, its name, in lower case, is the same or comes later.
abbrev pub NotBehind : FileSystem → Entry → List Entry → Type 0
NotBehind fs a [] = Unit {0}
NotBehind fs a (b ∷ bs) = (a.type ≡ b.type) → IsUpTo (fs.lower a.name) (fs.lower b.name)

abbrev pub IsOrdered : FileSystem → List Entry → Type 0
IsOrdered fs [] = Unit {0}
IsOrdered fs (e ∷ es) = NotBehind fs e es × IsOrdered fs es

text_less-IsUpTo :
    (s t : Text) → (text_less s t ≡ true → IsUpTo s t) × (text_less s t ≡ false → IsUpTo t s)
unfolding text_less
text_less-IsUpTo s [] = ((λ h. cc), (λ _. tt))
text_less-IsUpTo [] (y ∷ t) = ((λ _. tt), (λ h. cc))
text_less-IsUpTo (x ∷ s) (y ∷ t) =
    let (before, behind) = text_less-IsUpTo s t in
    elim (trichotomy x y) [
      | inl l ↦ ((λ _. inl l), (λ h. ground (arith, h, l)))
      | inr (inl e) ↦ (
        (λ h. inr (e, before (ground (arith, h, e)))),
        (λ h. inr (sym e, behind (ground (arith, h, e)))),
      )
      | inr (inr g) ↦ ((λ h. ground (arith, h, g)), (λ _. inl g))
    ]
  where
    trichotomy : (m n : ℕ) → (m < n) ⊎ ((m ≡ n) ⊎ (n < m))
    trichotomy m n = omega arith

-- What the comparison of two entries says of their names.
entry_less_names :
    (fs : FileSystem) (x e : Entry)
    → (entry_less fs x e ≡ true → NotBehind fs x (e ∷ []))
      × (entry_less fs x e ≡ false → NotBehind fs e (x ∷ []))
unfolding entry_less
entry_less_names fs x e =
    let (before, behind) = text_less-IsUpTo (fs.lower x.name) (fs.lower e.name) in
    (
      (λ h same. before (ground (arith, h, (str_eq_iff x.type e.type).1 same))),
      (λ h same. behind (ground (arith, h, (str_eq_iff x.type e.type).1 (sym same)))),
    )

IsOrdered-insert_entry :
    (fs : FileSystem) (e : Entry) (es : List Entry)
    → IsOrdered fs es
    → IsOrdered fs (insert_entry fs e es)
unfolding insert_entry
IsOrdered-insert_entry fs e [] h = (tt, tt)
IsOrdered-insert_entry fs e (x ∷ xs) (n, h) =
    let (before, behind) = entry_less_names fs x e in
    if_cases (IsOrdered fs) (entry_less fs x e) _ _
      (λ l. (next xs n (before l), IsOrdered-insert_entry fs e xs h)) (λ l. (behind l, (n, h)))
  where
    next :
        (ys : List Entry)
        → NotBehind fs x ys
        → NotBehind fs x (e ∷ [])
        → NotBehind fs x (insert_entry fs e ys)
    next [] n b = b
    next (y ∷ ys) n b = if_cases (NotBehind fs x) (entry_less fs y e) _ _ (λ _. n) (λ _. b)

IsOrdered-sort_entries : (fs : FileSystem) (es : List Entry) → IsOrdered fs (sort_entries fs es)
unfolding sort_entries
IsOrdered-sort_entries fs [] = tt
IsOrdered-sort_entries fs (e ∷ es) =
    IsOrdered-insert_entry fs e (sort_entries fs es) (IsOrdered-sort_entries fs es)

-- A listing of the directory `abs`, which is below `base` by the way `r`.
abbrev pub Lists : FileSystem → Text → Text → Text → ListResult → Type 0
Lists fs base abs r l =
    (names : List Text) × (fs.read_dir abs ≡ found names)
    × (l.path ≡ fs.to_slash r)
    × ((e : Entry) → Among e l.entries ↔ Shown fs base r names e)
    × IsGrouped l.entries
    × IsOrdered fs l.entries

list_items-Lists :
    (fs : FileSystem) (base abs r : Text) (f : Found (List Text)) (l : ListResult)
    → fs.read_dir abs ≡ f
    → list_items fs base r f ≡ good l
    → Lists fs base abs r l
unfolding list_items
list_items-Lists fs base abs r missing l e h = cc
list_items-Lists fs base abs r (broken m) l e h = cc
list_items-Lists fs base abs r (found names) l e h = from (collect fs base r names) refl h
  where
    from :
        (o : Outcome (List Entry))
        → collect fs base r names ≡ o
        → elim o [
          | good es ↦
              good (record { root = []; path = fs.to_slash r; entries = sort_entries fs es })
          | bad x ↦ bad x
        ]
          ≡ good l
        → Lists fs base abs r l
    from (bad x) c k = cc
    from (good es) c k = subst (Lists fs base abs r) (unpack k) (
      names,
      e,
      refl,
      (λ x.
          let here = Among-sort_entries fs es x in
          let there = collect_iff fs base r names es c x in
          ((λ z. there.0 (here.0 z)), (λ z. here.1 (there.1 z)))),
      IsGrouped-sort_entries fs es,
      IsOrdered-sort_entries fs es,
    )
      where
        unpack : {m n : ListResult} → good m ≡ good n → m ≡ n
        unpack q = cc

-- What a listing below a session's directory comes to.
abbrev pub IsListing : FileSystem → Text → Text → ListResult → Type 0
IsListing fs base_path path l =
    (base : Text) × (abs : Text) × (r : Text) × (info : FileInfo) × (normalize_base fs base_path
      ≡ good base)
    × (resolve_base fs base path ≡ good (abs, r))
    × (fs.stat abs ≡ found info)
    × (info.is_dir ≡ true)
    × Lists fs base abs r l

list_stat-Lists :
    (fs : FileSystem) (base abs r : Text) (f : Found FileInfo) (l : ListResult)
    → fs.stat abs ≡ f
    → list_stat fs base abs r f ≡ good l
    → (info : FileInfo) × (fs.stat abs ≡ found info) × (info.is_dir ≡ true) × Lists fs base abs r l
unfolding list_stat
list_stat-Lists fs base abs r missing l e h = cc
list_stat-Lists fs base abs r (broken m) l e h = cc
list_stat-Lists fs base abs r (found info) l e h = elim (Bool-cases info.is_dir) [
  | inl d ↦ (
    info,
    e,
    d,
    list_items-Lists fs base abs r (fs.read_dir abs) l refl (open_directory info.is_dir d h),
  )
  | inr d ↦ absurd (no_directory info.is_dir d h)
]
  where
    open_directory :
        (b : Bool)
        → b ≡ true
        → (if not b then bad not_directory else list_items fs base r (fs.read_dir abs)) ≡ good l
        → list_items fs base r (fs.read_dir abs) ≡ good l
    open_directory true d h = h
    open_directory false d h = cc

    no_directory :
        (b : Bool)
        → b ≡ false
        → (if not b then bad not_directory else list_items fs base r (fs.read_dir abs)) ≡ good l
        → ⊥
    no_directory true d h = cc
    no_directory false d h = cc

-- A listing that succeeds is one of a directory below the session's directory. It shows exactly the items
-- of it whose paths resolve below that directory and lead to something that is there, each with the size
-- and the type of what it leads to; directories stand before files, and of two neighbours of one type the
-- name of the second, in lower case, is not smaller. Its path is the way to the directory.
pub list_at-IsListing :
    (fs : FileSystem) (base_path path : Text) (l : ListResult)
    → list_at fs base_path path ≡ good l
    → IsListing fs base_path path l
unfolding list_at list_in list_resolved
list_at-IsListing fs base_path path l h = from (normalize_base fs base_path) refl h
  where
    from :
        (o : Outcome Text)
        → normalize_base fs base_path ≡ o
        → list_in fs o path ≡ good l
        → IsListing fs base_path path l
    from (bad x) n k = cc
    from (good base) n k = resolved (resolve_base fs base path) refl k
      where
        resolved :
            (o : Outcome (Text × Text))
            → resolve_base fs base path ≡ o
            → list_resolved fs base o ≡ good l
            → IsListing fs base_path path l
        resolved (bad x) e j = cc
        resolved (good (abs, r)) e j =
            let (info, at, d, lists) = list_stat-Lists fs base abs r (fs.stat abs) l refl j in
            (base, abs, r, info, n, e, at, d, lists)
