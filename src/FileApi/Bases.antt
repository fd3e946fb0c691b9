-- ===== src/FileApi/Bases.antt =====
-- relay/internal/fileapi/service.go: which directories `normalizeBase` refuses.
use httpssh.Base.{◌≡◌, ◌≢◌, ap, arith, true, false, [], Text, str_eq_ne, trim_space}
use httpssh.FileApi.{
  FileSystem, FileError, path_not_found, invalid_base, bad, missing, normalize_base, normalize_real,
  list_in, list_at,
}

module _ (fs : FileSystem) (base_path : Text) where
  normalize_base_relative :
      fs.is_abs (fs.from_slash (trim_space base_path)) ≡ false
      → normalize_base fs base_path ≡ bad invalid_base
  unfolding normalize_base
  normalize_base_relative h = ground (arith, h)

  normalize_base_gone :
      trim_space base_path ≢ []
      → fs.is_abs (fs.from_slash (trim_space base_path)) ≡ true
      → fs.eval_symlinks (fs.clean (fs.from_slash (trim_space base_path))) ≡ missing
      → normalize_base fs base_path ≡ bad path_not_found
  unfolding normalize_base normalize_real
  normalize_base_gone ne h gone = ground (arith, str_eq_ne (trim_space base_path) [] ne, h, gone)

  list_at_refused :
      (path : Text) (e : FileError)
      → normalize_base fs base_path ≡ bad e
      → list_at fs base_path path ≡ bad e
  unfolding list_at list_in
  list_at_refused path e h = ap (λ o. list_in fs o path) h

  -- A directory that is not absolute is refused; one that is not there is not found.
  pub list_at_relative :
      (path : Text)
      → fs.is_abs (fs.from_slash (trim_space base_path)) ≡ false
      → list_at fs base_path path ≡ bad invalid_base
  list_at_relative path h = list_at_refused path invalid_base (normalize_base_relative h)

  pub list_at_gone :
      (path : Text)
      → trim_space base_path ≢ []
      → fs.is_abs (fs.from_slash (trim_space base_path)) ≡ true
      → fs.eval_symlinks (fs.clean (fs.from_slash (trim_space base_path))) ≡ missing
      → list_at fs base_path path ≡ bad path_not_found
  list_at_gone path ne h gone = list_at_refused path path_not_found (normalize_base_gone ne h gone)
