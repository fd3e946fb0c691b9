-- ===== src/Config/Tests.antt =====
-- relay/internal/config/config.go: the validation of concrete configurations.
use httpssh.Base.{◌≡◌, ◌↔◌, refl, Bool, true, none, Text, str_eq}
use httpssh.Config.{default_config, one_of, check_roots, check_level, validate}
use httpssh.Config.Checks.{IsValidConfig, validate_iff}

abbrev absolute : Text → Bool
absolute path = true

validate_iff_example :
    (validate absolute default_config ≡ none) ↔ IsValidConfig absolute default_config
validate_iff_example = validate_iff absolute default_config

default_passes : validate absolute default_config ≡ none
unfolding validate default_config check_roots check_level one_of str_eq
default_passes = refl
