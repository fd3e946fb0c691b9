-- ===== src/Relay/Startup.antt =====
-- relay/cmd/httpssh-relay/main.go: what `buildConfig` lets a relay start with.
use httpssh.Base.{
  ◌⊎◌, ℕ, ◌≤◌, ◌<◌, subst, ◌≡◌, ◌≢◌, inl, inr, refl, ap, Bool, Option, none, some, [], ℤ, pos,
  negsuc, non_positive, arith, if◌then◌else◌, if_cases, Option-cases, length, Text, str_eq,
  str_eq_iff, hex_encode, length-hex_encode,
}
use httpssh.Config.{Config, LoadError, default_config, load, validate}
use httpssh.Config.Checks.{IsValidConfig, IsPositive, validate_iff}
use httpssh.Shell.{Host}
use httpssh.Manager.{PtyFactory, new_manager}
use httpssh.Relay.{
  Flags, Built, built, failed_build, overlay, with_bearer, checked, checked_bearer, build_config,
  shell_resolver_for, relay_manager,
}

-- `rand.Read` fills the 32 bytes that it is given.
abbrev pub IsFilled : Option Text → Type 0
IsFilled none = Unit {0}
IsFilled (some bytes) = length bytes ≡ 32

abbrev HasBearer : Option Config → Type 0
HasBearer none = Unit {0}
HasBearer (some c) = c.lan_bearer ≢ []

length-ne-nil : (s : Text) (n : ℕ) → length s ≡ n → 0 < n → s ≢ []
length-ne-nil s n e h z = omega (arith, e, h, ap length z)

with_bearer-HasBearer :
    (random : Option Text) (c : Config) → IsFilled random → HasBearer (with_bearer random c)
unfolding with_bearer
with_bearer-HasBearer none c k =
    if_cases HasBearer (str_eq c.lan_bearer []) _ _ (λ _. tt)
      (λ e. λ z. ground (arith, e, (str_eq_iff c.lan_bearer []).1 z))
with_bearer-HasBearer (some bytes) c k =
    if_cases HasBearer (str_eq c.lan_bearer []) _ _
      (λ _.
        length-ne-nil (hex_encode bytes) 64 (omega (arith, length-hex_encode bytes, k))
          (omega arith))
      (λ e. λ z. ground (arith, e, (str_eq_iff c.lan_bearer []).1 z))

module _ (is_abs : Text → Bool) where
  -- What holds of a configuration that a relay starts with.
  abbrev pub IsStarted : Built → Type 0
  IsStarted (built c) = IsValidConfig is_abs c × (16 ≤ length c.lan_bearer)
  IsStarted (failed_build e) = Unit {0}

  long_bearer : (c : Config) → IsValidConfig is_abs c → c.lan_bearer ≢ [] → 16 ≤ length c.lan_bearer
  long_bearer c v ne = elim v.2 [ inl e ↦ absurd (ne e) | inr h ↦ h ]

  checked-IsStarted : (c : Config) → c.lan_bearer ≢ [] → IsStarted (checked is_abs c)
  unfolding checked
  checked-IsStarted c ne = elim (Option-cases (validate is_abs c)) [
    | inl e ↦
        rw (e, checked)
          (let v : IsValidConfig is_abs c = (validate_iff is_abs c).0 e in (v, long_bearer c v ne))
    | inr (x, e) ↦ rw (e, checked) tt
  ]

  checked_bearer-IsStarted : (o : Option Config) → HasBearer o → IsStarted (checked_bearer is_abs o)
  unfolding checked_bearer
  checked_bearer-IsStarted none k = tt
  checked_bearer-IsStarted (some c) k = checked-IsStarted c k

  -- A relay starts only with a configuration that meets every condition of `Validate`, whatever the file
  -- and the flags say, and never without a bearer: it has one of at least 16 bytes. `rand.Read` is taken
  -- to fill 32 bytes where it succeeds.
  pub build_config-IsStarted :
      (loaded : Option Config) (f : Flags) (random : Option Text)
      → IsFilled random
      → IsStarted (build_config is_abs loaded f random)
  unfolding build_config
  build_config-IsStarted none f random k = tt
  build_config-IsStarted (some c) f random k =
      checked_bearer-IsStarted (with_bearer random (overlay f c))
        (with_bearer-HasBearer random (overlay f c) k)

  positive : (x d : ℤ) → IsPositive x → (if non_positive x then d else x) ≡ x
  positive (pos n) d h = ground arith
  positive (negsuc n) d h = absurd h

  -- The manager of a relay that started with `c` keeps exactly the limits of `c`: none of the defaults of
  -- `NewManager` replaces one. It spawns through ConPTY and resolves shells with the default of `c`.
  pub relay_manager-opts :
      (conpty_spawn : PtyFactory) (h : Host) (loaded : Option Config) (f : Flags)
      (random : Option Text) (c : Config)
      → IsFilled random
      → build_config is_abs loaded f random ≡ built c
      → let o = (relay_manager conpty_spawn h c).opts in
        (o.scrollback_bytes ≡ c.session.scrollback_bytes)
        × (o.idle_timeout ≡ c.session.idle_timeout)
        × (o.reap_interval ≡ c.session.reap_interval)
        × (o.spawn ≡ some conpty_spawn)
        × (o.shells ≡ some (shell_resolver_for h c.shell))
  unfolding relay_manager new_manager
  relay_manager-opts conpty_spawn h loaded f random c k e =
      let (v, _) = subst IsStarted e (build_config-IsStarted loaded f random k) in
      (
        positive c.session.scrollback_bytes _ v.4,
        positive c.session.idle_timeout _ v.3,
        positive c.session.reap_interval _ v.5,
        refl,
        refl,
      )

-- What `buildConfig` is given of `Load`.
abbrev pub loaded_of : LoadError ⊎ Config → Option Config
loaded_of (inl e) = none
loaded_of (inr c) = some c

abbrev pub no_flags : Flags
no_flags = record {
  listen = none;
  bearer = none;
  idle_timeout = none;
  scrollback_bytes = none;
  log_level = none;
  shell = none;
}

checked_built :
    (is_abs : Text → Bool) (c : Config) → validate is_abs c ≡ none → checked is_abs c ≡ built c
unfolding checked
checked_built is_abs c e = rw (e, checked) refl

-- A relay that is started with no file and no flags starts, with the defaults and a bearer of 64
-- hexadecimal digits, if the host gives it 32 random bytes.
pub build_config-load :
    (is_abs : Text → Bool) (read_file : Text → Option Text)
    (unmarshal : Text → Config → Option Config) (bytes : Text)
    → length bytes ≡ 32
    → build_config is_abs (loaded_of (load read_file unmarshal [])) no_flags (some bytes)
      ≡ built (record default_config { lan_bearer = hex_encode bytes })
unfolding build_config load default_config with_bearer overlay checked_bearer checked str_eq
build_config-load is_abs read_file unmarshal bytes full =
    let c : Config = record default_config { lan_bearer = hex_encode bytes } in
    let digits : 16 ≤ length (hex_encode bytes) = omega (arith, length-hex_encode bytes, full) in
    checked_built is_abs c (
      (validate_iff is_abs c).1 (
        (λ e. cc),
        inr (inl refl),
        inr digits,
        omega arith,
        omega arith,
        omega arith,
        omega arith,
        tt,
        inr (inr (inl refl)),
      ))
