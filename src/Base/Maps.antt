-- ===== src/Base/Maps.antt =====
-- Go's `map[string]V` as an association list. An iteration goes in the list's order, of which Go
-- promises nothing.
use mathlib.Core.Path.{◌≡◌, refl, sym, ◌∙◌, subst}
use mathlib.Core.Logic.{◌≢◌, inl, inr}
use mathlib.Core.Bool.{false≢true}
use mathlib.Core.List.{List, [], ◌∷◌}
use mathlib.Core.Option.{Option, none, some}
use native.Mathlib.Omega.{arith}
use httpssh.Base.Tests.{if◌then◌else◌, if_cases, Bool-cases}
use httpssh.Base.Bytes.{Text, str_eq, str_eq_iff, str_eq_refl, str_eq_ne}

abbrev pub Table {ℓ} : Type ℓ → Type ℓ
Table V = List (Text × V)

module _ {ℓ} {V : Type ℓ} where
  unfoldable pub lookup : Text → Table V → Option V
  lookup k [] = none
  lookup k ((j, v) ∷ m) = if str_eq j k then some v else lookup k m

  unfoldable pub insert : Text → V → Table V → Table V
  insert k v [] = (k, v) ∷ []
  insert k v ((j, w) ∷ m) = if str_eq j k then (k, v) ∷ m else (j, w) ∷ insert k v m

  -- `delete(m, k)`
  unfoldable pub delete : Text → Table V → Table V
  delete k [] = []
  delete k ((j, v) ∷ m) = let rest = delete k m in if str_eq j k then rest else (j, v) ∷ rest

  pub lookup-insert :
      (k j : Text) (v : V) (m : Table V)
      → lookup j (insert k v m) ≡ (if str_eq k j then some v else lookup j m)
  unfolding lookup insert
  lookup-insert k j v [] = refl
  lookup-insert k j v ((i, w) ∷ m) =
      ground (arith, str_eq_iff k j, str_eq_iff i k, str_eq_iff i j, lookup-insert k j v m)

  pub lookup-delete :
      (k j : Text) (m : Table V) → lookup j (delete k m) ≡ (if str_eq k j then none else lookup j m)
  unfolding lookup delete
  lookup-delete k j [] = ground arith
  lookup-delete k j ((i, w) ∷ m) =
      ground (arith, str_eq_iff k j, str_eq_iff i k, str_eq_iff i j, lookup-delete k j m)

  pub lookup-insert_self : (k : Text) (v : V) (m : Table V) → lookup k (insert k v m) ≡ some v
  lookup-insert_self k v m = rw (lookup-insert k k v m, str_eq_refl k)

  pub lookup-insert_ne :
      (k j : Text) (v : V) (m : Table V) → k ≢ j → lookup j (insert k v m) ≡ lookup j m
  lookup-insert_ne k j v m h = rw (lookup-insert k j v m, str_eq_ne k j h)

  pub lookup-delete_self : (k : Text) (m : Table V) → lookup k (delete k m) ≡ none
  lookup-delete_self k m = rw (lookup-delete k k m, str_eq_refl k)

  pub lookup-delete_ne : (k j : Text) (m : Table V) → k ≢ j → lookup j (delete k m) ≡ lookup j m
  lookup-delete_ne k j m h = rw (lookup-delete k j m, str_eq_ne k j h)

  -- Every value with its key.
  abbrev pub Every {κ} : (Text → V → Type κ) → Table V → Type κ
  Every P [] = Unit
  Every P ((k, v) ∷ m) = P k v × Every P m

  pub Every-insert {κ} :
      (P : Text → V → Type κ) (k : Text) (v : V) (m : Table V)
      → P k v
      → Every P m
      → Every P (insert k v m)
  unfolding insert
  Every-insert P k v [] p h = (p, tt)
  Every-insert P k v ((j, w) ∷ m) p (x, h) = elim (Bool-cases (str_eq j k)) [
    | inl e ↦ rw e (p, h)
    | inr e ↦ rw e (x, Every-insert P k v m p h)
  ]

  pub Every-delete {κ} :
      (P : Text → V → Type κ) (k : Text) (m : Table V) → Every P m → Every P (delete k m)
  unfolding delete
  Every-delete P k [] h = tt
  Every-delete P k ((j, w) ∷ m) (x, h) = elim (Bool-cases (str_eq j k)) [
    | inl e ↦ rw e (Every-delete P k m h)
    | inr e ↦ rw e (x, Every-delete P k m h)
  ]

  pub Every-lookup {κ} :
      (P : Text → V → Type κ) (k : Text) (m : Table V) {v : V}
      → Every P m
      → lookup k m ≡ some v
      → P k v
  unfolding lookup
  Every-lookup P k [] h e = cc
  Every-lookup P k ((j, w) ∷ m) {v} (x, h) e = elim (Bool-cases (str_eq j k)) [
    | inl same ↦
        let found : some w ≡ some v = rw same at e in
        let value : w ≡ v = cc in subst (λ i. P i v) ((str_eq_iff j k).0 same) (subst (P j) value x)
    | inr other ↦ Every-lookup P k m h (rw other at e)
  ]

  -- No key twice, as in every Go map.
  abbrev pub Distinct : Table V → Type ℓ
  Distinct [] = Unit
  Distinct ((k, v) ∷ m) = (lookup k m ≡ none) × Distinct m

  pub insert-Distinct : (k : Text) (v : V) (m : Table V) → Distinct m → Distinct (insert k v m)
  unfolding insert
  insert-Distinct k v [] d = (unfold lookup in refl, tt)
  insert-Distinct k v ((j, w) ∷ m) (n, d) = elim (Bool-cases (str_eq j k)) [
    | inl e ↦ rw e (subst (λ i. lookup i m ≡ none) ((str_eq_iff j k).0 e) n, d)
    | inr e ↦
        let differ : k ≢ j = λ x. false≢true (sym e ∙ (str_eq_iff j k).1 (sym x)) in
        rw e (lookup-insert_ne k j v m differ ∙ n, insert-Distinct k v m d)
  ]

  lookup-delete-none : (k j : Text) (m : Table V) → lookup j m ≡ none → lookup j (delete k m) ≡ none
  lookup-delete-none k j m h =
      lookup-delete k j m
      ∙ if_cases (λ o. o ≡ none) (str_eq k j) none (lookup j m) (λ _. refl) (λ _. h)

  pub delete-Distinct : (k : Text) (m : Table V) → Distinct m → Distinct (delete k m)
  unfolding delete
  delete-Distinct k [] d = tt
  delete-Distinct k ((j, w) ∷ m) (n, d) =
      if_cases Distinct (str_eq j k) (delete k m) ((j, w) ∷ delete k m) (λ _. delete-Distinct k m d)
        (λ _. (lookup-delete-none k j m n, delete-Distinct k m d))
