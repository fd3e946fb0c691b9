-- ===== src/Config.antt =====
-- relay/internal/config/config.go: the configuration, how it is loaded, and its validation. The reading of
-- files and `yaml.Unmarshal`, which is third-party code, are parameters of `load`. Whether a path is
-- absolute depends on the host's file system (`filepath.IsAbs`) and is a parameter.
pub mod Checks
mod Tests
use httpssh.Base.{
  ◌⊎◌, inl, inr, ℕ, ◌*◌, Bool, true, false, not, ◌&&◌, ◌||◌, Option, none, some, List, [], ◌∷◌, ℤ,
  pos, non_positive, ltb, ◌==◌, if◌then◌else◌, length, Text, codes, str_eq, trim_space,
  contains_any, hex_encode,
}

pub record FileRootConfig : Type 0 where
  pub id : Text
  pub name : Text
  pub path : Text

pub record SessionConfig : Type 0 where
  pub idle_timeout : ℤ
  pub scrollback_bytes : ℤ
  pub reap_interval : ℤ

pub record Config : Type 0 where
  pub listen : Text
  pub shell : Text
  pub lan_bearer : Text
  pub session : SessionConfig
  pub roots : List FileRootConfig
  pub max_file_bytes : ℤ
  pub level : Text

-- `Default`: 24 hours, 4 MiB, 60 seconds, 1 MiB.
unfoldable pub default_config : Config
default_config = record {
  listen = codes "127.0.0.1:18822";
  shell = codes "auto";
  lan_bearer = [];
  session = record {
    idle_timeout = pos (24 * 3600 * 1_000_000_000);
    scrollback_bytes = pos (4 * 1_048_576);
    reap_interval = pos (60 * 1_000_000_000);
  };
  roots = [];
  max_file_bytes = pos 1_048_576;
  level = codes "info";
}

pub data LoadError : Type 0 where
  unreadable unparsable : Text → LoadError

-- What `yaml.Unmarshal` makes of the defaults, or nothing where it fails.
abbrev pub parsed_onto : Text → Option Config → LoadError ⊎ Config
parsed_onto path none = inl (unparsable path)
parsed_onto path (some c) = inr c

unfoldable pub load :
    (Text → Option Text) → (Text → Config → Option Config) → Text → LoadError ⊎ Config
unfolding str_eq default_config
load read_file unmarshal path =
    if str_eq path [] then inr default_config else elim (read_file path) [
      | none ↦ inl (unreadable path)
      | some data_ ↦ parsed_onto path (unmarshal data_ default_config)
    ]

-- The errors of `Validate`, without their texts.
pub data ConfigError : Type 0 where
  no_listen unknown_shell short_bearer bad_idle_timeout bad_scrollback bad_reap_interval :
      ConfigError
  bad_max_file_bytes root_no_id root_bad_id root_duplicate root_no_name root_no_path : ConfigError
  root_not_absolute unknown_level : ConfigError

unfoldable pub one_of : Text → List Text → Bool
one_of s [] = false
one_of s (t ∷ ts) = str_eq s t || one_of s ts

abbrev pub shells : List Text
shells = [] ∷ codes "auto" ∷ codes "pwsh" ∷ codes "powershell" ∷ codes "cmd" ∷ []

abbrev pub levels : List Text
levels = [] ∷ codes "debug" ∷ codes "info" ∷ codes "warn" ∷ codes "error" ∷ []

abbrev pub bad_id_bytes : Text
bad_id_bytes = codes "/\\?#"

abbrev pub or_else : Option ConfigError → Option ConfigError → Option ConfigError
or_else (some e) next = some e
or_else none next = next

unfoldable pub check_level : Text → Option ConfigError
check_level level = if one_of level levels then none else some unknown_level

module _ (is_abs : Text → Bool) where
  -- One round of the loop over the roots; `seen` has the ids so far.
  unfoldable pub check_root : List Text → FileRootConfig → Option ConfigError
  check_root seen root =
      let id = trim_space root.id in
      if str_eq id []
      then some root_no_id
      else if contains_any id bad_id_bytes
      then some root_bad_id
      else if one_of id seen
      then some root_duplicate
      else if str_eq (trim_space root.name) []
      then some root_no_name
      else if str_eq (trim_space root.path) []
      then some root_no_path
      else if not (is_abs root.path)
      then some root_not_absolute
      else none

  unfoldable pub check_roots : List Text → List FileRootConfig → Option ConfigError
  check_roots seen [] = none
  check_roots seen (root ∷ roots) = elim (check_root seen root) [
    | some e ↦ some e
    | none ↦ check_roots (trim_space root.id ∷ seen) roots
  ]

  unfoldable pub validate : Config → Option ConfigError
  validate c =
      if str_eq c.listen []
      then some no_listen
      else if not (one_of c.shell shells)
      then some unknown_shell
      else if not (str_eq c.lan_bearer []) && ltb (length c.lan_bearer) 16
      then some short_bearer
      else if non_positive c.session.idle_timeout
      then some bad_idle_timeout
      else if non_positive c.session.scrollback_bytes
      then some bad_scrollback
      else if non_positive c.session.reap_interval
      then some bad_reap_interval
      else if non_positive c.max_file_bytes
      then some bad_max_file_bytes
      else or_else (check_roots [] c.roots) (check_level c.level)
