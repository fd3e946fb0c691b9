-- ===== src/FileApi/Data.antt =====
-- relay/internal/fileapi/service.go: the data of the file browser, and the host's file system.
use httpssh.Base.{ℕ, ℤ, Bool, Option, List, Text}

-- What is wrong with the configuration of a service, with the id of the root and the host's error where
-- the message names them.
pub data ConfigFault : Type 0 where
  max_file_bytes_negative no_root_id no_root_name no_root_path : ConfigFault
  duplicate_root_id root_not_directory : Text → ConfigFault
  root_path_failed : Text → Text → ConfigFault

-- `io` is an error of the host, by its text.
pub data FileError : Type 0 where
  disabled root_not_found forbidden path_not_found not_directory invalid_base : FileError
  not_text too_large : FileError
  invalid_config : ConfigFault → FileError
  io : Text → FileError

pub data Outcome {ℓ} (A : Type ℓ) : Type ℓ where
  good : A → Outcome A
  bad : FileError → Outcome A

-- The answer of the host about a path: `missing` is `os.ErrNotExist`.
pub data Found {ℓ} (A : Type ℓ) : Type ℓ where
  found : A → Found A
  missing : Found A
  broken : Text → Found A

pub record FileInfo : Type 0 where
  pub is_dir : Bool
  pub file_size : ℕ
  pub mod_time : ℕ

pub record FileSystem : Type 0 where
  pub from_slash : Text → Text
  pub to_slash : Text → Text
  pub clean : Text → Text
  pub lower : Text → Text
  pub is_abs : Text → Bool
  pub join : Text → Text → Text
  pub rel : Text → Text → Option Text
  pub separator : Text
  pub eval_symlinks : Text → Found Text
  pub stat : Text → Found FileInfo
  pub read_dir : Text → Found (List Text)
  pub read_file : Text → Found Text
  pub base_name : Text → Text
  pub abs : Text → Found Text

pub record Root : Type 0 where
  pub id : Text
  pub name : Text
  pub path : Text

-- `RootConfig` and `Config`
pub record RootConfig : Type 0 where
  pub id : Text
  pub name : Text
  pub path : Text

pub record FileConfig : Type 0 where
  pub roots : List RootConfig
  pub max_file_bytes : ℤ

-- The map `byID` of a service is the search for the id among the roots.
pub record Service : Type 0 where
  pub roots : List Root
  pub max_file_bytes : ℕ

pub record Document : Type 0 where
  pub root : Text
  pub path : Text
  pub name : Text
  pub size : ℕ
  pub modified_at : ℕ
  pub encoding : Text
  pub content : Text

pub record RootInfo : Type 0 where
  pub id : Text
  pub name : Text

pub record Entry : Type 0 where
  pub name : Text
  pub path : Text
  pub type : Text
  pub size : ℕ
  pub modified_at : ℕ

pub record ListResult : Type 0 where
  pub root : Text
  pub path : Text
  pub entries : List Entry
