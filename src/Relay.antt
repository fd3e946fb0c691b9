-- ===== src/Relay.antt =====
-- relay/cmd/httpssh-relay/main.go: how the flags and the configuration file make a relay.
--
-- What `config.Load` yields, the flags that were given (`flag.Visit`) and what `rand.Read` fills in are
-- arguments.
pub mod Startup
pub mod Running
mod Tests
use httpssh.Base.{
  Bool, true, false, not, ◌&&◌, Option, none, some, List, [], ◌∷◌, ℤ, if◌then◌else◌, Text, codes,
  str_eq, hex_encode,
}
use httpssh.Config.{Config, SessionConfig, ConfigError, validate}
use httpssh.Errors.{Result}
use httpssh.Shell.{Host, resolve_shell}
use httpssh.Manager.{ShellResolver, Manager, Options, PtyFactory, new_manager}

-- A flag that was not given is `none`.
pub record Flags : Type 0 where
  pub listen : Option Text
  pub bearer : Option Text
  pub idle_timeout : Option ℤ
  pub scrollback_bytes : Option ℤ
  pub log_level : Option Text
  pub shell : Option Text

pub data BuildError : Type 0 where
  -- `config.Load` failed, or `rand.Read` did.
  load_failed rand_failed : BuildError
  refused_config : ConfigError → BuildError

abbrev or_given {ℓ} : {A : Type ℓ} → Option A → A → A
or_given (some a) d = a
or_given none d = d

unfoldable pub overlay : Flags → Config → Config
overlay f c = record c {
  listen = or_given f.listen c.listen;
  lan_bearer = or_given f.bearer c.lan_bearer;
  session = record c.session {
    idle_timeout = or_given f.idle_timeout c.session.idle_timeout;
    scrollback_bytes = or_given f.scrollback_bytes c.session.scrollback_bytes;
  };
  level = or_given f.log_level c.level;
  shell = or_given f.shell c.shell;
}

pub data Built : Type 0 where
  built : Config → Built
  failed_build : BuildError → Built

-- The bearer made from 32 random bytes, `none` where the host has no randomness.
unfoldable pub with_bearer : Option Text → Config → Option Config
with_bearer random c =
    if str_eq c.lan_bearer []
    then elim random [
      | none ↦ none
      | some bytes ↦ some (record c { lan_bearer = hex_encode bytes })
    ]
    else some c

module _ (is_abs : Text → Bool) where
  pub checked : Config → Built
  checked c = elim (validate is_abs c) [ none ↦ built c | some e ↦ failed_build (refused_config e) ]

  pub checked_bearer : Option Config → Built
  unfolding checked
  checked_bearer none = failed_build rand_failed
  checked_bearer (some c) = checked c

  -- `loaded` is the answer of `config.Load`.
  unfoldable pub build_config : Option Config → Flags → Option Text → Built
  unfolding overlay with_bearer checked_bearer
  build_config none f random = failed_build load_failed
  build_config (some c) f random = checked_bearer (with_bearer random (overlay f c))

unfoldable pub shell_resolver_for : Host → Text → ShellResolver
unfolding resolve_shell
shell_resolver_for h default_shell name =
    let d = if str_eq default_shell [] then codes "auto" else default_shell in
    resolve_shell h (if str_eq name [] then d else name)

abbrev pub relay_options : Host → Config → Options
relay_options h c = record {
  scrollback_bytes = c.session.scrollback_bytes;
  idle_timeout = c.session.idle_timeout;
  reap_interval = c.session.reap_interval;
  shells = some (shell_resolver_for h c.shell);
  spawn = none;
}

-- The manager that `runRelay` makes.
unfoldable pub relay_manager : PtyFactory → Host → Config → Manager
unfolding new_manager
relay_manager conpty_spawn h c = new_manager conpty_spawn (relay_options h c)
