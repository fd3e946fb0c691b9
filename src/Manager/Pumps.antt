-- ===== src/Manager/Pumps.antt =====
-- relay/internal/session/session.go: the directory of a session as its output announces it.
use httpssh.Base.{
  ℕ, ◌≡◌, refl, ap, ◌∙◌, arith, Bool, Option, none, some, List, [], ◌∷◌, if_cases, ◌==◌, length,
  Text, lookup,
}
use httpssh.Errors.{Error, ok, err}
use httpssh.Cwd.{CwdTracker, new_cwd_tracker, feed}
use httpssh.Session.{Session, publish_output, suppress}
use httpssh.Manager.Renames.{with_session, get-with_session}
use httpssh.Session.History.{Event, apply}
use httpssh.Manager.Steps.{apply_to}
use httpssh.Manager.{Manager, get, or_not_found, pump_chunk, pump_read}

publish_output-cwd :
    (pick : ℕ → Bool) (s : Session) (p path : Text) (now : ℕ)
    → (publish_output pick s p (path ∷ []) now).cwd ≡ path
unfolding publish_output suppress
publish_output-cwd pick s p path now = ground arith

-- The directory of a session after a chunk in which one is announced.
pub pump_chunk-cwd :
    (pick : ℕ → Bool) (now : ℕ) (s : Session) (p path : Text)
    → feed s.cwd_tracker p ≡ (new_cwd_tracker, path ∷ [])
    → (pump_chunk pick now s p).cwd ≡ path
unfolding pump_chunk
pump_chunk-cwd pick now s [] path h = unfold feed in cc h
pump_chunk-cwd pick now s (x ∷ p) path h =
    if_cases (λ (t : Session). t.cwd ≡ path) (length (x ∷ p) == 0) _ _ (λ e. ground (arith, e))
      (λ e.
        ap
          (λ (r : CwdTracker × List Text).
            (publish_output pick (record s { cwd_tracker = r.0 }) (x ∷ p) r.1 now).cwd)
          h
        ∙ publish_output-cwd pick (record s { cwd_tracker = new_cwd_tracker }) (x ∷ p) path now)

pub lookup_of_get :
    (m : Manager) (id : Text) (s : Session) → get m id ≡ ok s → lookup id m.by_id ≡ some s
unfolding get
lookup_of_get m id s h = found (lookup id m.by_id) h
  where
    found : (o : Option Session) → or_not_found o ≡ ok s → o ≡ some s
    found none k = unfold or_not_found in cc k
    found (some t) k = unfold or_not_found in cc k

pub get-pump_read :
    (pick : ℕ → Bool) (now : ℕ) (m : Manager) (id p : Text) (s : Session)
    → get m id ≡ ok s
    → get (pump_read pick now m id p) id ≡ ok (pump_chunk pick now s p)
unfolding get pump_read lookup pump_chunk
get-pump_read pick now m id p s h =
    rw (lookup_of_get m id s h, pump_read) (get-with_session m id (pump_chunk pick now s p))

-- An event at a session that is found.
pub apply_to-get :
    (m : Manager) (id : Text) (s : Session) (e : Event)
    → get m id ≡ ok s
    → apply_to m id e ≡ with_session m id (apply s e)
unfolding apply_to
apply_to-get m id s e h = rw (lookup_of_get m id s h, apply_to) refl

missing_of_get : (m : Manager) (id : Text) {x : Error} → get m id ≡ err x → lookup id m.by_id ≡ none
unfolding get
missing_of_get m id {x} h = missing (lookup id m.by_id) h
  where
    missing : (o : Option Session) → or_not_found o ≡ err x → o ≡ none
    missing none k = refl
    missing (some t) k = unfold or_not_found in cc k

-- An event at a session that is not found changes nothing.
pub apply_to_missing :
    (m : Manager) (id : Text) (e : Event) {x : Error} → get m id ≡ err x → apply_to m id e ≡ m
unfolding apply_to
apply_to_missing m id e h = rw (missing_of_get m id h, apply_to) refl

pub get_of_lookup :
    (m : Manager) (id : Text) (s : Session) → lookup id m.by_id ≡ some s → get m id ≡ ok s
unfolding get or_not_found
get_of_lookup m id s h = ap or_not_found h
