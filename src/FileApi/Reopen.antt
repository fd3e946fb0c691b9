-- ===== src/FileApi/Reopen.antt =====
-- relay/internal/fileapi/service.go: the path of an entry leads back to it.
use httpssh.Base.{
  not, codes, ◌≡◌, inl, inr, refl, sym, ap, ◌∙◌, subst, List, [], ◌∷◌, Text, trim_space,
  if◌then◌else◌,
}
use httpssh.FileApi.{
  FileSystem, FileInfo, good, bad, found, Entry, ListResult, forbidden, target_from, target_of,
  inside_root, resolve_real, resolve_base, normalize_base, join_relative, list_at,
}
use httpssh.FileApi.Jail.{InJail, IsJailed, resolve_base-IsJailed}
use httpssh.FileApi.Listing.{Among, ShownAs, Shown}
use httpssh.FileApi.Order.{list_at-IsListing}

-- `filepath.ToSlash` and `filepath.FromSlash` exchange the host's separator, which is no space, for a
-- slash.
pub record KeepsSlashes (fs : FileSystem) : Type 0 where
  pub and_back : (path : Text) → fs.from_slash (fs.to_slash path) ≡ fs.from_slash path
  pub spaces :
      (path : Text) → trim_space (fs.to_slash path) ≡ fs.to_slash path → trim_space path ≡ path

target_of-to_slash :
    (fs : FileSystem) (base path : Text)
    → KeepsSlashes fs
    → trim_space (fs.to_slash path) ≡ fs.to_slash path
    → target_of fs base (fs.to_slash path) ≡ target_of fs base path
unfolding target_of
target_of-to_slash fs base path k clean =
    ap (target_from fs base)
      (ap fs.from_slash clean ∙ k.and_back path ∙ ap fs.from_slash (sym (k.spaces path clean)))

resolve_base-to_slash :
    (fs : FileSystem) (base path : Text)
    → KeepsSlashes fs
    → trim_space (fs.to_slash path) ≡ fs.to_slash path
    → resolve_base fs base (fs.to_slash path) ≡ resolve_base fs base path
unfolding resolve_base
resolve_base-to_slash fs base path k clean =
    ap
      (λ t.
        if not (inside_root fs base t)
        then bad forbidden
        else resolve_real fs base (fs.eval_symlinks t))
      (target_of-to_slash fs base path k clean)

-- What the path of an entry leads to.
abbrev pub LeadsTo : FileSystem → Text → Entry → Type 0
LeadsTo fs base e =
    (abs : Text) × (way : Text) × (info : FileInfo) × (resolve_base fs base e.path
      ≡ good (abs, way))
    × InJail fs base e.path abs way
    × (fs.stat abs ≡ found info)
    × (e.size ≡ info.file_size)
    × (e.modified_at ≡ info.mod_time)
    × (e.type ≡ (if info.is_dir then codes "directory" else codes "file"))

ShownAs-LeadsTo :
    (fs : FileSystem) (base name path : Text) (e : Entry)
    → KeepsSlashes fs
    → trim_space e.path ≡ e.path
    → ShownAs fs name path (resolve_base fs base path) e
    → LeadsTo fs base e
ShownAs-LeadsTo fs base name path e k clean (abs, way, info, x, at, same) =
    let asked : e.path ≡ fs.to_slash path = ap (λ (y : Entry). y.path) same in
    let r : resolve_base fs base (fs.to_slash path) ≡ good (abs, way) =
      resolve_base-to_slash fs base path k (ap trim_space (sym asked) ∙ clean ∙ asked) ∙ x in
    subst (LeadsTo fs base) (sym same) (
      abs,
      way,
      info,
      r,
      subst (IsJailed fs base (fs.to_slash path)) r
          (resolve_base-IsJailed fs base (fs.to_slash path)),
      at,
      refl,
      refl,
      refl,
    )

Shown-LeadsTo :
    (fs : FileSystem) (base r : Text) (names : List Text) (e : Entry)
    → KeepsSlashes fs
    → trim_space e.path ≡ e.path
    → Shown fs base r names e
    → LeadsTo fs base e
Shown-LeadsTo fs base r [] e k clean h = absurd h
Shown-LeadsTo fs base r (name ∷ names) e k clean (inl h) =
    ShownAs-LeadsTo fs base name (join_relative fs r name) e k clean h
Shown-LeadsTo fs base r (name ∷ names) e k clean (inr h) = Shown-LeadsTo fs base r names e k clean h

-- The path of an entry in a listing, asked for in the same directory, leads to what the entry shows: it
-- resolves below the directory, to something of the size, the time and the type that the entry gives. The
-- path is taken to have no space at its ends.
pub list_at-LeadsTo :
    (fs : FileSystem) (base_path path : Text) (l : ListResult) (e : Entry)
    → KeepsSlashes fs
    → list_at fs base_path path ≡ good l
    → Among e l.entries
    → trim_space e.path ≡ e.path
    → (base : Text) × (normalize_base fs base_path ≡ good base) × LeadsTo fs base e
list_at-LeadsTo fs base_path path l e k h among clean =
    let (base, abs, r, info, n, at, there, d, lists) = list_at-IsListing fs base_path path l h in
    let (names, listed, way, shows, grouped, ordered) = lists in
    (base, n, Shown-LeadsTo fs base r names e k clean ((shows e).0 among))
