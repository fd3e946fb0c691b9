-- ===== src/FileApi/Roots/Served.antt =====
-- relay/internal/fileapi/service.go: what a service serves.
use httpssh.Base.{
  ℕ, ◌<◌, ◌≡◌, refl, sym, ap, ◌∙◌, subst, arith, Bool, true, false, not, ℤ, pos, negsuc, some, List,
  [], ◌∷◌, ◌++◌, ◌==◌, if◌then◌else◌, if_cases, is_some, Text, str_eq, str_eq_refl, trim_space,
  append_assoc, append-nil,
}
use httpssh.FileApi.{
  FileSystem, FileInfo, root_not_directory, max_file_bytes_negative, invalid_config, Outcome, good,
  bad, Found, found, missing, broken, Root, RootConfig, FileConfig, Service, find_root,
}
use httpssh.FileApi.Roots.{
  default_max_file_bytes, root_stat, root_real, root_abs, root_of, add_roots, with_limit,
  new_service,
}

-- A root of the service, with the place that its configuration names.
abbrev pub Serves : FileSystem → RootConfig → Root → Type 0
Serves fs c r =
    (r.id ≡ c.id)
    × (r.name ≡ c.name)
    × ((abs : Text) × (real : Text) × (info : FileInfo) × (fs.abs c.path ≡ found abs)
        × (fs.eval_symlinks abs ≡ found real)
        × (fs.stat real ≡ found info)
        × (info.is_dir ≡ true)
        × (r.path ≡ fs.clean real))

abbrev pub AllServed : FileSystem → List RootConfig → List Root → Type 0
AllServed fs [] [] = Unit
AllServed fs [] (r ∷ rs) = ⊥
AllServed fs (c ∷ cs) [] = ⊥
AllServed fs (c ∷ cs) (r ∷ rs) = Serves fs c r × AllServed fs cs rs

-- Every one of some roots is found by its id.
abbrev pub FoundById : List Root → List Root → Type 0
FoundById roots [] = Unit
FoundById roots (r ∷ rs) = (find_root r.id roots ≡ some r) × FoundById roots rs

find_root-append :
    (id : Text) (xs ys : List Root) (r : Root)
    → find_root id xs ≡ some r
    → find_root id (xs ++ ys) ≡ some r
unfolding find_root
find_root-append id [] ys r h = cc
find_root-append id (x ∷ xs) ys r h = ground (arith, find_root-append id xs ys r)

find_root_last :
    (xs : List Root) (r : Root)
    → is_some (find_root r.id xs) ≡ false
    → find_root r.id (xs ++ (r ∷ [])) ≡ some r
unfolding find_root
find_root_last [] r h = rw (str_eq_refl r.id) refl
find_root_last (x ∷ xs) r h = ground (arith, find_root_last xs r)

FoundById-append : (xs ys rs : List Root) → FoundById xs rs → FoundById (xs ++ ys) rs
FoundById-append xs ys [] h = h
FoundById-append xs ys (r ∷ rs) (f, h) =
    (find_root-append r.id xs ys r f, FoundById-append xs ys rs h)

last_found :
    (roots xs : List Root) (r : Root)
    → FoundById roots xs
    → find_root r.id roots ≡ some r
    → FoundById roots (xs ++ (r ∷ []))
last_found roots [] r h f = (f, h)
last_found roots (x ∷ xs) r (g, h) f = (g, last_found roots xs r h f)

module _ (fs : FileSystem) (c : RootConfig) (r : Root) where
  root_stat-Serves :
      (abs real : Text) (f : Found FileInfo)
      → fs.abs c.path ≡ found abs
      → fs.eval_symlinks abs ≡ found real
      → fs.stat real ≡ f
      → root_stat fs c real f ≡ good r
      → Serves fs c r
  unfolding root_stat
  root_stat-Serves abs real missing a e s h = cc
  root_stat-Serves abs real (broken m) a e s h = cc
  root_stat-Serves abs real (found info) a e s h = split info.is_dir refl h
    where
      split :
          (b : Bool)
          → info.is_dir ≡ b
          → (if not b
              then bad (invalid_config (root_not_directory c.id))
              else good (record { id = c.id; name = c.name; path = fs.clean real }))
            ≡ good r
          → Serves fs c r
      split false d k = cc
      split true d k = (cc, cc, (abs, real, info, a, e, s, d, cc))

  root_abs-Serves : (f : Found Text) → fs.abs c.path ≡ f → root_abs fs c f ≡ good r → Serves fs c r
  unfolding root_abs root_real
  root_abs-Serves missing a h = cc
  root_abs-Serves (broken m) a h = cc
  root_abs-Serves (found abs) a h = real (fs.eval_symlinks abs) refl h
    where
      real : (f : Found Text) → fs.eval_symlinks abs ≡ f → root_real fs c f ≡ good r → Serves fs c r
      real missing e k = cc
      real (broken m) e k = cc
      real (found p) e k = root_stat-Serves abs p (fs.stat p) a e refl k

  root_of-Serves :
      (roots : List Root)
      → root_of fs c roots ≡ good r
      → Serves fs c r × (is_some (find_root c.id roots) ≡ false)
  unfolding root_of
  root_of-Serves roots =
      if_cases Goal (str_eq (trim_space c.id) []) _ _ (λ a h. cc)
        (λ a.
          if_cases Goal (str_eq (trim_space c.name) []) _ _ (λ b h. cc)
            (λ b.
              if_cases Goal (str_eq (trim_space c.path) []) _ _ (λ p h. cc)
                (λ p.
                  if_cases Goal (is_some (find_root c.id roots)) _ _ (λ d h. cc)
                    (λ d h. (root_abs-Serves (fs.abs c.path) refl h, d)))))
    where
      Goal : Outcome Root → Type 0
      Goal o = o ≡ good r → Serves fs c r × (is_some (find_root c.id roots) ≡ false)

-- The roots behind those that the loop has.
abbrev Adds : FileSystem → List Root → List RootConfig → List Root → Type 0
Adds fs roots cs rs =
    (news : List Root) × (rs ≡ roots ++ news) × AllServed fs cs news × FoundById rs rs

add_roots-Adds :
    (fs : FileSystem) (roots : List Root) (cs : List RootConfig) (rs : List Root)
    → FoundById roots roots
    → add_roots fs roots cs ≡ good rs
    → Adds fs roots cs rs
unfolding add_roots
add_roots-Adds fs roots [] rs f h =
    let same : roots ≡ rs = unpack h in
    ([], (sym same ∙ sym (append-nil roots)), tt, subst (λ xs. FoundById xs xs) same f)
  where
    unpack : {y : List Root} → good roots ≡ good y → roots ≡ y
    unpack q = cc
add_roots-Adds fs roots (c ∷ cs) rs f h =
    step (root_of fs c roots) refl h (λ r. add_roots-Adds fs (roots ++ (r ∷ [])) cs rs)
  where
    step :
        (o : Outcome Root)
        → root_of fs c roots ≡ o
        → (elim o as (λ x. Outcome (List Root)) [
          | bad e ↦ bad e
          | good root ↦ add_roots fs (roots ++ (root ∷ [])) cs
        ])
          ≡ good rs
        → ((r : Root)
            → FoundById (roots ++ (r ∷ [])) (roots ++ (r ∷ []))
            → add_roots fs (roots ++ (r ∷ [])) cs ≡ good rs
            → Adds fs (roots ++ (r ∷ [])) cs rs)
        → Adds fs roots (c ∷ cs) rs
    step (bad e) o k rest = cc
    step (good r) o k rest =
        let (serves, fresh) = root_of-Serves fs c r roots o in
        let here : find_root r.id (roots ++ (r ∷ [])) ≡ some r =
          find_root_last roots r (ap (λ i. is_some (find_root i roots)) serves.0 ∙ fresh) in
        let more : FoundById (roots ++ (r ∷ [])) (roots ++ (r ∷ [])) =
          last_found (roots ++ (r ∷ [])) roots r (FoundById-append roots (r ∷ []) roots f) here in
        let (news, same, all, found_all) = rest r more k in
        (r ∷ news, (same ∙ append_assoc roots (r ∷ []) news), (serves, all), found_all)

with_limit_ok :
    (n : ℕ) (o : Outcome (List Root)) (s : Service)
    → with_limit n o ≡ good s
    → (o ≡ good s.roots) × (s.max_file_bytes ≡ n)
unfolding with_limit
with_limit_ok n (bad e) s h = cc
with_limit_ok n (good roots) s h = (cc, cc)

-- The limit of a configuration, where 0 stands for the default.
abbrev pub limit_of : ℕ → ℕ
limit_of n = if n == 0 then default_max_file_bytes else n

-- A service that is made has a root for each of its configuration, in order, with its id, its name and the
-- real path of the directory that it names; every root is found by its id, so no two have the same; and its
-- limit is the configured one, where 0 stands for the default, and is positive.
pub new_service-AllServed :
    (fs : FileSystem) (cfg : FileConfig) (s : Service)
    → new_service fs cfg ≡ good s
    → AllServed fs cfg.roots s.roots
      × FoundById s.roots s.roots
      × (0 < s.max_file_bytes)
      × ((n : ℕ) × (cfg.max_file_bytes ≡ pos n) × (s.max_file_bytes ≡ limit_of n))
unfolding new_service
new_service-AllServed fs cfg s h = by_limit cfg.max_file_bytes refl h
  where
    by_limit :
        (z : ℤ)
        → cfg.max_file_bytes ≡ z
        → (elim z as (λ x. Outcome Service) [
          | negsuc n ↦ bad (invalid_config max_file_bytes_negative)
          | pos n ↦ with_limit (limit_of n) (add_roots fs [] cfg.roots)
        ])
          ≡ good s
        → AllServed fs cfg.roots s.roots
          × FoundById s.roots s.roots
          × (0 < s.max_file_bytes)
          × ((n : ℕ) × (cfg.max_file_bytes ≡ pos n) × (s.max_file_bytes ≡ limit_of n))
    by_limit (negsuc n) z k = cc
    by_limit (pos n) z k =
        let (roots, limit) = with_limit_ok (limit_of n) (add_roots fs [] cfg.roots) s k in
        let (news, same, all, each) = add_roots-Adds fs [] cfg.roots s.roots tt roots in
        (subst (AllServed fs cfg.roots) (sym same) all, each, ground (arith, limit), (n, z, limit))
