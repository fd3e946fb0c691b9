-- ===== src/FileApi.antt =====
-- relay/internal/fileapi/service.go: the read-only file browser, as far as it resolves paths and lists
-- directories; the children read documents and make the service.
--
-- The host's file system and its rules for paths (`path/filepath`, `os`) are a record of functions.
-- `sort.Slice` is an insertion sort, one of the orders that it may give.
pub mod Decoding
pub mod Reading
pub mod Roots
pub mod Jail
pub mod Contained
pub mod Bases
pub mod Reopen
pub mod Listing
pub mod Order
mod Tests
mod Data
pub use Data.*
use httpssh.Base.{
  ℕ, Bool, true, false, not, ◌&&◌, ◌||◌, Option, none, some, List, [], ◌∷◌, ◌++◌, ltb, ◌==◌,
  if◌then◌else◌, Text, codes, str_eq, has_prefix, trim_space, map,
}

abbrev pub dot : Text
dot = codes "."

abbrev pub dot_dot : Text
dot_dot = codes ".."

-- A relative path that leads up, or that is none.
unfoldable pub leads_out : FileSystem → Text → Bool
unfolding has_prefix
leads_out fs r = str_eq r dot_dot || has_prefix r (dot_dot ++ fs.separator) || fs.is_abs r

pub inside_by : FileSystem → Option Text → Bool
unfolding leads_out
inside_by fs none = false
inside_by fs (some r) = str_eq r dot || not (leads_out fs r)

unfoldable pub inside_root : FileSystem → Text → Text → Bool
unfolding inside_by
inside_root fs root target = inside_by fs (fs.rel root target)

-- The target of a request, from its path with the host's separators.
unfoldable pub target_from : FileSystem → Text → Text → Text
target_from fs base native = fs.clean (
    if str_eq native [] || str_eq native dot
    then base
    else if fs.is_abs native
    then fs.clean native
    else fs.join base (fs.clean native))

unfoldable pub target_of : FileSystem → Text → Text → Text
unfolding trim_space target_from
target_of fs base requested = target_from fs base (fs.from_slash (trim_space requested))

pub relative : Option Text → Text → Outcome (Text × Text)
relative none real = bad (io (codes "Rel"))
relative (some r) real = good (real, (if str_eq r dot then [] else r))

pub resolve_real : FileSystem → Text → Found Text → Outcome (Text × Text)
unfolding inside_root relative
resolve_real fs base missing = bad path_not_found
resolve_real fs base (broken e) = bad (io e)
resolve_real fs base (found p) =
    let real = fs.clean p in
    if not (inside_root fs base real) then bad forbidden else relative (fs.rel base real) real

-- `resolveBase`: the real path, and the path below the base.
unfoldable pub resolve_base : FileSystem → Text → Text → Outcome (Text × Text)
unfolding inside_root target_of resolve_real
resolve_base fs base requested =
    let target = target_of fs base requested in
    if not (inside_root fs base target)
    then bad forbidden
    else resolve_real fs base (fs.eval_symlinks target)

normalize_stat : FileSystem → Text → Found FileInfo → Outcome Text
normalize_stat fs real missing = bad path_not_found
normalize_stat fs real (broken e) = bad (io e)
normalize_stat fs real (found info) =
    if not info.is_dir then bad not_directory else good (fs.clean real)

normalize_real : FileSystem → Found Text → Outcome Text
unfolding normalize_stat
normalize_real fs missing = bad path_not_found
normalize_real fs (broken e) = bad (io e)
normalize_real fs (found real) = normalize_stat fs real (fs.stat real)

unfoldable pub normalize_base : FileSystem → Text → Outcome Text
unfolding trim_space normalize_real
normalize_base fs base_path =
    let base = trim_space base_path in
    let native = fs.from_slash base in
    if str_eq base []
    then bad invalid_base
    else if not (fs.is_abs native)
    then bad invalid_base
    else normalize_real fs (fs.eval_symlinks (fs.clean native))

unfoldable pub join_relative : FileSystem → Text → Text → Text
join_relative fs base name = if str_eq base [] then name else fs.join base name

-- The order of a listing: directories first, then by name without regard to case.
unfoldable pub text_less : Text → Text → Bool
text_less s [] = false
text_less [] (y ∷ t) = true
text_less (x ∷ s) (y ∷ t) = ltb x y || (x == y && text_less s t)

unfoldable pub entry_less : FileSystem → Entry → Entry → Bool
unfolding text_less
entry_less fs a b =
    if not (str_eq a.type b.type)
    then str_eq a.type (codes "directory")
    else text_less (fs.lower a.name) (fs.lower b.name)

unfoldable pub insert_entry : FileSystem → Entry → List Entry → List Entry
unfolding entry_less
insert_entry fs e [] = e ∷ []
insert_entry fs e (x ∷ xs) =
    let rest = insert_entry fs e xs in if entry_less fs x e then x ∷ rest else e ∷ x ∷ xs

unfoldable pub sort_entries : FileSystem → List Entry → List Entry
unfolding insert_entry
sort_entries fs [] = []
sort_entries fs (e ∷ es) = insert_entry fs e (sort_entries fs es)

abbrev pub entry_of : FileSystem → Text → Text → FileInfo → Entry
entry_of fs name path info = record {
  name = name;
  path = fs.to_slash path;
  type = if info.is_dir then codes "directory" else codes "file";
  size = info.file_size;
  modified_at = info.mod_time;
}

-- One round of the loop over the items: nothing, an entry, or the error that ends it.
pub child_of : FileSystem → Text → Text → Found FileInfo → Option Entry
child_of fs name path (found info) = some (entry_of fs name path info)
child_of fs name path missing = none
child_of fs name path (broken e) = none

pub entry_at : FileSystem → Text → Text → Outcome (Text × Text) → Outcome (Option Entry)
unfolding child_of
entry_at fs name path (good (child, r)) = good (child_of fs name path (fs.stat child))
entry_at fs name path (bad forbidden) = good none
entry_at fs name path (bad path_not_found) = good none
entry_at fs name path (bad e) = bad e

pub add_entry : Outcome (Option Entry) → Outcome (List Entry) → Outcome (List Entry)
add_entry (bad e) rest = bad e
add_entry (good none) rest = rest
add_entry (good (some e)) (good es) = good (e ∷ es)
add_entry (good (some e)) (bad x) = bad x

unfoldable pub collect : FileSystem → Text → Text → List Text → Outcome (List Entry)
unfolding entry_at add_entry join_relative resolve_base
collect fs base r [] = good []
collect fs base r (name ∷ names) =
    let path = join_relative fs r name in
    add_entry (entry_at fs name path (resolve_base fs base path)) (collect fs base r names)

pub list_items : FileSystem → Text → Text → Found (List Text) → Outcome ListResult
unfolding collect sort_entries
list_items fs base r missing = bad (io (codes "ReadDir"))
list_items fs base r (broken e) = bad (io e)
list_items fs base r (found names) = elim (collect fs base r names) [
  | good es ↦ good (record { root = []; path = fs.to_slash r; entries = sort_entries fs es })
  | bad e ↦ bad e
]

pub list_stat : FileSystem → Text → Text → Text → Found FileInfo → Outcome ListResult
unfolding list_items
list_stat fs base abs r missing = bad path_not_found
list_stat fs base abs r (broken e) = bad (io e)
list_stat fs base abs r (found info) =
    if not info.is_dir then bad not_directory else list_items fs base r (fs.read_dir abs)

-- `listResolved`, on what `resolveBase` gave.
pub list_resolved : FileSystem → Text → Outcome (Text × Text) → Outcome ListResult
unfolding list_stat
list_resolved fs base (bad e) = bad e
list_resolved fs base (good (abs, r)) = list_stat fs base abs r (fs.stat abs)

pub list_in : FileSystem → Outcome Text → Text → Outcome ListResult
unfolding list_resolved resolve_base
list_in fs (bad e) path = bad e
list_in fs (good base) path = list_resolved fs base (resolve_base fs base path)

-- `ListAt`
unfoldable pub list_at : FileSystem → Text → Text → Outcome ListResult
unfolding list_in normalize_base
list_at fs base_path path = list_in fs (normalize_base fs base_path) path

-- The roots of a service, in order and by id; an id names one root.
unfoldable pub find_root : Text → List Root → Option Root
unfolding str_eq
find_root id [] = none
find_root id (r ∷ rs) = if str_eq r.id id then some r else find_root id rs

named_root : Text → Outcome ListResult → Outcome ListResult
named_root id (good l) = good (record l { root = id })
named_root id (bad e) = bad e

list_root : FileSystem → Text → Option Root → Outcome ListResult
unfolding named_root list_resolved resolve_base
list_root fs path none = bad root_not_found
list_root fs path (some r) = named_root r.id (list_resolved fs r.path (resolve_base fs r.path path))

-- `List`
unfoldable pub list_files : FileSystem → List Root → Text → Text → Outcome ListResult
unfolding list_root find_root
list_files fs [] root_id path = bad disabled
list_files fs (r ∷ rs) root_id path = list_root fs path (find_root root_id (r ∷ rs))

-- `Roots`
unfoldable pub root_infos : List Root → List RootInfo
root_infos rs = map (λ (r : Root). record { id = r.id; name = r.name }) rs
