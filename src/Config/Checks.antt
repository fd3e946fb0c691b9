-- ===== src/Config/Checks.antt =====
-- relay/internal/config/config.go: what `Validate` lets pass.
use httpssh.Base.{
  ◌≤◌, ◌<◌, ◌≡◌, ◌≢◌, ◌↔◌, ◌⊎◌, refl, Bool, true, false, not, ◌&&◌, Option, none, some, List, [],
  ◌∷◌, ℤ, pos, negsuc, non_positive, arith, ltb, if◌then◌else◌, length, Text, str_eq, str_eq_iff,
  trim_space, contains_any,
}
use httpssh.Config.{
  Config, FileRootConfig, ConfigError, one_of, shells, levels, bad_id_bytes, check_root,
  check_roots, check_level, or_else, validate,
}

abbrev pub In : Text → List Text → Type 0
In s [] = ⊥
In s (t ∷ ts) = (s ≡ t) ⊎ In s ts

pub one_of_iff : (s : Text) (ts : List Text) → (one_of s ts ≡ true) ↔ In s ts
unfolding one_of
one_of_iff s [] = (λ h. cc, λ h. absurd h)
one_of_iff s (t ∷ ts) =
    let (to, from) = one_of_iff s ts in
    (
      λ h. ground (arith, str_eq_iff s t, one_of_iff s ts),
      λ h. ground (arith, str_eq_iff s t, one_of_iff s ts),
    )

-- 0 < x
abbrev pub IsPositive : ℤ → Type 0
IsPositive (pos n) = 0 < n
IsPositive (negsuc n) = ⊥

non_positive_iff : (x : ℤ) → (non_positive x ≡ false) ↔ IsPositive x
non_positive_iff (pos n) = (λ h. ground arith, λ h. ground arith)
non_positive_iff (negsuc n) = (λ h. cc, λ h. absurd h)

module _ (is_abs : Text → Bool) where
  -- A root whose trimmed id is not empty, has none of `/\?#` and is not among `seen`, and whose name and
  -- path are not blank, the path absolute.
  abbrev pub IsRoot : List Text → FileRootConfig → Type 0
  IsRoot seen root =
      (trim_space root.id ≢ [])
      × (contains_any (trim_space root.id) bad_id_bytes ≡ false)
      × (¬ In (trim_space root.id) seen)
      × (trim_space root.name ≢ [])
      × (trim_space root.path ≢ [])
      × (is_abs root.path ≡ true)

  abbrev pub AreRoots : List Text → List FileRootConfig → Type 0
  AreRoots seen [] = Unit {0}
  AreRoots seen (root ∷ roots) = IsRoot seen root × AreRoots (trim_space root.id ∷ seen) roots

  check_root_iff :
      (seen : List Text) (root : FileRootConfig)
      → (check_root is_abs seen root ≡ none) ↔ IsRoot seen root
  unfolding check_root
  check_root_iff seen root = (
    λ h. ground (
      arith,
      str_eq_iff (trim_space root.id) [],
      one_of_iff (trim_space root.id) seen,
      str_eq_iff (trim_space root.name) [],
      str_eq_iff (trim_space root.path) [],
    ),
    λ h. ground (
      arith,
      str_eq_iff (trim_space root.id) [],
      one_of_iff (trim_space root.id) seen,
      str_eq_iff (trim_space root.name) [],
      str_eq_iff (trim_space root.path) [],
    ),
  )

  check_roots_iff :
      (seen : List Text) (roots : List FileRootConfig)
      → (check_roots is_abs seen roots ≡ none) ↔ AreRoots seen roots
  unfolding check_roots
  check_roots_iff seen [] = (λ h. tt, λ h. refl)
  check_roots_iff seen (root ∷ roots) = (
    λ h.
        ground (arith, check_root_iff seen root, check_roots_iff (trim_space root.id ∷ seen) roots),
    λ h.
        ground (arith, check_root_iff seen root, check_roots_iff (trim_space root.id ∷ seen) roots),
  )

  -- What a configuration has to meet.
  abbrev pub IsValidConfig : Config → Type 0
  IsValidConfig c =
      (c.listen ≢ [])
      × In c.shell shells
      × ((c.lan_bearer ≡ []) ⊎ (16 ≤ length c.lan_bearer))
      × IsPositive c.session.idle_timeout
      × IsPositive c.session.scrollback_bytes
      × IsPositive c.session.reap_interval
      × IsPositive c.max_file_bytes
      × AreRoots [] c.roots
      × In c.level levels

  check_level_iff : (level : Text) → (check_level level ≡ none) ↔ In level levels
  unfolding check_level
  check_level_iff level =
      (λ h. ground (arith, one_of_iff level levels), λ h. ground (arith, one_of_iff level levels))

  or_else_iff : (a b : Option ConfigError) → (or_else a b ≡ none) ↔ ((a ≡ none) × (b ≡ none))
  or_else_iff none b = (λ h. (refl, h), λ h. h.1)
  or_else_iff (some e) b = (λ h. cc, λ h. h.0)

  tail_iff :
      (c : Config)
      → (or_else (check_roots is_abs [] c.roots) (check_level c.level) ≡ none)
        ↔ (AreRoots [] c.roots × In c.level levels)
  tail_iff c = (
    λ h.
        let (r, l) = (or_else_iff (check_roots is_abs [] c.roots) (check_level c.level)).0 h in
        ((check_roots_iff [] c.roots).0 r, (check_level_iff c.level).0 l),
    λ (r, l).
        (or_else_iff (check_roots is_abs [] c.roots) (check_level c.level)).1
          ((check_roots_iff [] c.roots).1 r, (check_level_iff c.level).1 l),
  )

  guard_iff :
      (b : Bool) (e : ConfigError) (x : Option ConfigError)
      → ((if b then some e else x) ≡ none) ↔ ((b ≡ false) × (x ≡ none))
  guard_iff true e x = (λ h. cc, λ h. cc)
  guard_iff false e x = (λ h. (refl, h), λ h. h.1)

  bearer_iff :
      (bearer : Text)
      → (not (str_eq bearer []) && ltb (length bearer) 16 ≡ false)
        ↔ ((bearer ≡ []) ⊎ (16 ≤ length bearer))
  bearer_iff bearer =
      (λ h. ground (arith, str_eq_iff bearer []), λ h. ground (arith, str_eq_iff bearer []))

  not_iff : (b : Bool) → (not b ≡ false) ↔ (b ≡ true)
  not_iff b = (λ h. ground arith, λ h. ground arith)

  ne_iff : (s : Text) → (str_eq s [] ≡ false) ↔ (s ≢ [])
  ne_iff s = (λ h. ground (arith, str_eq_iff s []), λ h. ground (arith, str_eq_iff s []))

  -- `Validate` returns no error exactly for the configurations that meet the conditions; no two of their
  -- roots have the same trimmed id.
  pub validate_iff : (c : Config) → (validate is_abs c ≡ none) ↔ IsValidConfig c
  unfolding validate
  validate_iff c = (
    λ h.
        let (listen, h1) = (guard_iff (str_eq c.listen []) _ _).0 h in
        let (shell, h2) = (guard_iff (not (one_of c.shell shells)) _ _).0 h1 in
        let (bearer, h3) = (guard_iff _ _ _).0 h2 in
        let (idle, h4) = (guard_iff (non_positive c.session.idle_timeout) _ _).0 h3 in
        let (bytes, h5) = (guard_iff (non_positive c.session.scrollback_bytes) _ _).0 h4 in
        let (reap, h6) = (guard_iff (non_positive c.session.reap_interval) _ _).0 h5 in
        let (file, h7) = (guard_iff (non_positive c.max_file_bytes) _ _).0 h6 in
        let (roots, level) = (tail_iff c).0 h7 in
        (
          (ne_iff c.listen).0 listen,
          (one_of_iff c.shell shells).0 ((not_iff _).0 shell),
          (bearer_iff c.lan_bearer).0 bearer,
          (non_positive_iff c.session.idle_timeout).0 idle,
          (non_positive_iff c.session.scrollback_bytes).0 bytes,
          (non_positive_iff c.session.reap_interval).0 reap,
          (non_positive_iff c.max_file_bytes).0 file,
          roots,
          level,
        ),
    λ (listen, shell, bearer, idle, bytes, reap, file, roots, level).
        (guard_iff (str_eq c.listen []) _ _).1 (
          (ne_iff c.listen).1 listen,
          (guard_iff (not (one_of c.shell shells)) _ _).1 (
            (not_iff _).1 ((one_of_iff c.shell shells).1 shell),
            (guard_iff _ _ _).1 (
              (bearer_iff c.lan_bearer).1 bearer,
              (guard_iff _ _ _).1 (
                (non_positive_iff c.session.idle_timeout).1 idle,
                (guard_iff _ _ _).1 (
                  (non_positive_iff c.session.scrollback_bytes).1 bytes,
                  (guard_iff _ _ _).1 (
                    (non_positive_iff c.session.reap_interval).1 reap,
                    (guard_iff _ _ _).1
                        ((non_positive_iff c.max_file_bytes).1 file, (tail_iff c).1 (roots, level)),
                  ),
                ),
              ),
            ),
          ),
        ),
  )
