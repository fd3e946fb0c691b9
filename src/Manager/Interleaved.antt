-- ===== src/Manager/Interleaved.antt =====
-- relay/internal/session/manager.go: `reapOnce` with other steps between its pass over the sessions, which
-- looks at them, and its kills, for which it holds no lock.
use httpssh.Base.{
  ℕ, ◌≡◌, refl, ap, ◌∙◌, subst, ◌⊎◌, inl, inr, true, Bool-cases, Option, none, some, List, [], ◌∷◌,
  map, if_cases, if◌then◌else◌, Text, str_eq, str_eq_iff, str_eq_refl, lookup, delete,
  lookup-delete,
}
use httpssh.Session.{Session, Pty, not_found, kill}
use httpssh.Manager.{ok, err, Manager, get, or_not_found, is_stale, candidates}
use httpssh.Manager.Steps.{Step, run_steps}
use httpssh.Manager.Reaper.{IsKeyed, has_id, has_id-candidates}
use httpssh.Manager.Pumps.{lookup_of_get}

abbrev pub ids_of : List Session → List Text
ids_of ss = map (λ (s : Session). s.id) ss

-- The kill of a candidate, as it is by then; one that has gone meanwhile is closed already.
pub kill_candidate : (Text → Pty) → Manager → Text → Option Session → Manager
unfolding kill delete
kill_candidate ptys m id none = m
kill_candidate ptys m id (some s) = record m {
  by_id = delete id m.by_id;
  unlisted = (kill (ptys id) s).0 ∷ m.unlisted;
}

unfoldable pub kill_candidates : (Text → Pty) → Manager → List Text → Manager
unfolding kill_candidate lookup
kill_candidates ptys m [] = m
kill_candidates ptys m (id ∷ ids) =
    kill_candidates ptys (kill_candidate ptys m id (lookup id m.by_id)) ids

-- A pass at `now`, then the steps `xs`, and then the kills.
unfoldable pub reap_around : (Text → Pty) → ℕ → List Step → Manager → Manager
unfolding run_steps kill_candidates candidates
reap_around ptys now xs m = kill_candidates ptys (run_steps m xs) (ids_of (candidates now m.by_id))

abbrev Among : Text → List Text → Type 0
Among id [] = ⊥
Among id (x ∷ xs) = (x ≡ id) ⊎ Among id xs

has_id-Among : (id : Text) (ss : List Session) → has_id id ss ≡ true → Among id (ids_of ss)
has_id-Among id [] h = cc
has_id-Among id (s ∷ ss) h = elim (Bool-cases (str_eq s.id id)) [
  | inl e ↦ inl ((str_eq_iff s.id id).0 e)
  | inr e ↦ inr (has_id-Among id ss (rw e at h))
]

lookup-kill_candidate :
    (ptys : Text → Pty) (m : Manager) (id k : Text) (o : Option Session)
    → lookup k m.by_id ≡ none
    → lookup k (kill_candidate ptys m id o).by_id ≡ none
unfolding kill_candidate
lookup-kill_candidate ptys m id k none h = h
lookup-kill_candidate ptys m id k (some s) h =
    lookup-delete id k m.by_id ∙ if_cases (λ o. o ≡ none) (str_eq id k) _ _ (λ _. refl) (λ _. h)

lookup-kill_candidate_self :
    (ptys : Text → Pty) (m : Manager) (id : Text) (o : Option Session)
    → lookup id m.by_id ≡ o
    → lookup id (kill_candidate ptys m id o).by_id ≡ none
unfolding kill_candidate
lookup-kill_candidate_self ptys m id none h = h
lookup-kill_candidate_self ptys m id (some s) h =
    lookup-delete id id m.by_id ∙ ap (λ b. if b then none else lookup id m.by_id) (str_eq_refl id)

stays_gone :
    (ptys : Text → Pty) (ids : List Text) (m : Manager) (k : Text)
    → lookup k m.by_id ≡ none
    → lookup k (kill_candidates ptys m ids).by_id ≡ none
unfolding kill_candidates
stays_gone ptys [] m k h = h
stays_gone ptys (id ∷ ids) m k h =
    stays_gone ptys ids (kill_candidate ptys m id (lookup id m.by_id)) k
      (lookup-kill_candidate ptys m id k (lookup id m.by_id) h)

lookup-kill_candidates :
    (ptys : Text → Pty) (ids : List Text) (m : Manager) (k : Text)
    → Among k ids
    → lookup k (kill_candidates ptys m ids).by_id ≡ none
unfolding kill_candidates
lookup-kill_candidates ptys [] m k h = absurd h
lookup-kill_candidates ptys (id ∷ ids) m k (inl e) =
    subst
      (λ j.
        lookup j (kill_candidates ptys (kill_candidate ptys m id (lookup id m.by_id)) ids).by_id
        ≡ none)
      e
      (stays_gone ptys ids (kill_candidate ptys m id (lookup id m.by_id)) id
        (lookup-kill_candidate_self ptys m id (lookup id m.by_id) refl))
lookup-kill_candidates ptys (id ∷ ids) m k (inr h) =
    lookup-kill_candidates ptys ids (kill_candidate ptys m id (lookup id m.by_id)) k h

-- A session that a pass of the reaper finds stale is gone when the kills are done, whatever happens in
-- between: also if a client has joined it meanwhile, or something was typed.
pub get-reap_around :
    (ptys : Text → Pty) (now : ℕ) (m : Manager) (xs : List Step) (id : Text) (s : Session)
    → IsKeyed m.by_id
    → get m id ≡ ok s
    → is_stale now s ≡ true
    → get (reap_around ptys now xs m) id ≡ err not_found
unfolding get reap_around
get-reap_around ptys now m xs id s k h stale =
    let held =
      has_id-candidates now id m.by_id k.own_id k.distinct (lookup_of_get m id s h) ∙ stale in
    ap or_not_found (
      lookup-kill_candidates ptys (ids_of (candidates now m.by_id)) (run_steps m xs) id
        (has_id-Among id (candidates now m.by_id) held))
    ∙ unfold or_not_found in refl
