-- ===== src/FileApi/Roots.antt =====
-- relay/internal/fileapi/service.go: the roots of a service, from its configuration.
pub mod Served
use httpssh.Base.{
  ℕ, ℤ, pos, negsuc, Bool, true, false, not, Option, none, some, List, [], ◌∷◌, ◌++◌, ◌==◌,
  if◌then◌else◌, is_some, Text, codes, str_eq, trim_space,
}
use httpssh.FileApi.{
  FileSystem, FileInfo, ConfigFault, max_file_bytes_negative, no_root_id, no_root_name,
  no_root_path, duplicate_root_id, root_not_directory, root_path_failed, invalid_config, Outcome,
  good, bad, Found, found, missing, broken, Root, RootConfig, FileConfig, Service, find_root,
}

-- `DefaultMaxFileBytes`
abbrev pub default_max_file_bytes : ℕ
default_max_file_bytes = 1_048_576

abbrev pub no_such_file : Text
no_such_file = codes "file does not exist"

-- `fmt.Errorf("%w: root %q path: %v", ...)`
abbrev path_failed {ℓ} : {A : Type ℓ} → Text → Text → Outcome A
path_failed id e = bad (invalid_config (root_path_failed id e))

module _ (fs : FileSystem) (r : RootConfig) where
  pub root_stat : Text → Found FileInfo → Outcome Root
  root_stat real missing = path_failed r.id no_such_file
  root_stat real (broken e) = path_failed r.id e
  root_stat real (found info) =
      if not info.is_dir
      then bad (invalid_config (root_not_directory r.id))
      else good (record { id = r.id; name = r.name; path = fs.clean real })

  pub root_real : Found Text → Outcome Root
  unfolding root_stat
  root_real missing = path_failed r.id no_such_file
  root_real (broken e) = path_failed r.id e
  root_real (found real) = root_stat real (fs.stat real)

  pub root_abs : Found Text → Outcome Root
  unfolding root_real
  root_abs missing = path_failed r.id no_such_file
  root_abs (broken e) = path_failed r.id e
  root_abs (found abs) = root_real (fs.eval_symlinks abs)

  -- One round of the loop, where `roots` are those before it.
  unfoldable pub root_of : List Root → Outcome Root
  unfolding trim_space find_root root_abs
  root_of roots =
      if str_eq (trim_space r.id) []
      then bad (invalid_config no_root_id)
      else if str_eq (trim_space r.name) []
      then bad (invalid_config no_root_name)
      else if str_eq (trim_space r.path) []
      then bad (invalid_config no_root_path)
      else if is_some (find_root r.id roots)
      then bad (invalid_config (duplicate_root_id r.id))
      else root_abs (fs.abs r.path)

unfoldable pub add_roots : FileSystem → List Root → List RootConfig → Outcome (List Root)
unfolding root_of
add_roots fs roots [] = good roots
add_roots fs roots (r ∷ rs) = elim (root_of fs r roots) [
  | bad e ↦ bad e
  | good root ↦ add_roots fs (roots ++ (root ∷ [])) rs
]

pub with_limit : ℕ → Outcome (List Root) → Outcome Service
with_limit limit (bad e) = bad e
with_limit limit (good roots) = good (record { roots = roots; max_file_bytes = limit })

-- `NewService`
unfoldable pub new_service : FileSystem → FileConfig → Outcome Service
unfolding with_limit add_roots
new_service fs cfg = elim cfg.max_file_bytes [
  | negsuc n ↦ bad (invalid_config max_file_bytes_negative)
  | pos n ↦ with_limit (if n == 0 then default_max_file_bytes else n) (add_roots fs [] cfg.roots)
]
