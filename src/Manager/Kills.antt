-- ===== src/Manager/Kills.antt =====
-- relay/internal/session/manager.go: `Kill` against the map of sessions.
use httpssh.Base.{
  ◌≡◌, ◌≢◌, refl, sym, ap, ◌∙◌, subst, ◌⊎◌, inl, inr, Bool-cases, true, false, if◌then◌else◌, [],
  ◌∷◌, ◌++◌, Option, none, some, arith, Text, lookup-insert_self, lookup-insert_ne,
  lookup-delete_self, lookup-delete_ne,
}
use httpssh.Session.{Session, Pty, pty_close, Error, not_found, kill}
use httpssh.Manager.{
  Result, ok, err, Manager, get, kill_session, or_not_found, after_kill, kill_found,
}

pub get_err : (m : Manager) (id : Text) {e : Error} → get m id ≡ err e → e ≡ not_found
unfolding get
get_err m id h = ground arith

-- What `Kill` comes to, as `Get` sees it.
abbrev pub KillOutcome : Manager → Text → Manager × Option Error → Type 0
KillOutcome m id r =
    ((k : Text) → k ≢ id → get r.0 k ≡ get m k)
    × (((r.1 ≡ none) × (get r.0 id ≡ err not_found))
        ⊎ ((r.1 ≡ some not_found) × (get r.0 id ≡ err not_found) × (r.0 ≡ m))
        ⊎ ((e : Error) × (s : Session) × (r.1 ≡ some e) × (get r.0 id ≡ ok s) × (s.closed ≡ true)))

kill_error_closed :
    (pty : Pty) (s : Session) {e : Error} → (kill pty s).1 ≡ some e → (kill pty s).0.closed ≡ true
unfolding kill
kill_error_closed pty s h = ground arith

KillOutcome-after :
    (m : Manager) (id : Text) (r : Session × Option Error)
    → ((e : Error) → r.1 ≡ some e → r.0.closed ≡ true)
    → KillOutcome m id (after_kill m id r)
unfolding get after_kill
KillOutcome-after m id (s, none) h = (
  (λ k ne. ap or_not_found (lookup-delete_ne id k m.by_id (λ e. ne (sym e)))),
  inl (refl, ap or_not_found (lookup-delete_self id m.by_id)),
)
KillOutcome-after m id (s, some e) h = (
  (λ k ne. ap or_not_found (lookup-insert_ne id k s m.by_id (λ x. ne (sym x)))),
  inr (inr (e, s, refl, ap or_not_found (lookup-insert_self id s m.by_id), h e refl)),
)

KillOutcome-found :
    (pty : Pty) (m : Manager) (id : Text) (r : Result Session)
    → get m id ≡ r
    → KillOutcome m id (kill_found pty m id r)
unfolding kill_found after_kill
KillOutcome-found pty m id (err e) h =
    let missing : e ≡ not_found = get_err m id h in
    subst (λ x. KillOutcome m id (m, some x)) (sym missing)
      ((λ k ne. refl), inr (inl (refl, h ∙ ap (λ x. err x) missing, refl)))
KillOutcome-found pty m id (ok s) h =
    KillOutcome-after m id (kill pty s) (λ e x. kill_error_closed pty s x)

-- `Kill`, on every branch: no other session is touched, and either the session is gone; or there is
-- none of that id, and nothing changes; or the pseudo-console did not close, and the session stays,
-- closed.
pub kill_session-KillOutcome :
    (pty : Pty) (m : Manager) (id : Text) → KillOutcome m id (kill_session pty m id)
unfolding kill_session
kill_session-KillOutcome pty m id = KillOutcome-found pty m id (get m id) refl

-- The session after `Kill`: closed, and its pseudo-console closed unless the session was closed before.
abbrev pub IsKilled : Session → Session → Type 0
IsKilled s t =
    (t.closed ≡ true)
    × (t.pty_calls ≡ (if s.closed then s.pty_calls else s.pty_calls ++ (pty_close ∷ [])))

-- What `Kill` of an id comes to, by the session that it has.
abbrev pub KillResult : Pty → Manager → Text → Result Session → Manager × Option Error → Type 0
KillResult pty m id (err e) (m', o) = (m' ≡ m) × (o ≡ some not_found)
KillResult pty m id (ok s) (m', o) =
    ((k : Text) → k ≢ id → get m' k ≡ get m k)
    × ((t : Session) × IsKilled s t
        × (((o ≡ none)
              × ((s.closed ≡ true) ⊎ (pty.close_answer ≡ none))
              × (get m' id ≡ err not_found)
              × (m'.unlisted ≡ t ∷ m.unlisted))
            ⊎ ((e : Error) × (o ≡ some e)
                × (s.closed ≡ false)
                × (pty.close_answer ≡ some e)
                × (get m' id ≡ ok t))))

kill_left :
    (pty : Pty) (s : Session)
    → IsKilled s (kill pty s).0
      × ((kill pty s).1 ≡ none → (s.closed ≡ true) ⊎ (pty.close_answer ≡ none))
      × ((e : Error) → (kill pty s).1 ≡ some e → (s.closed ≡ false) × (pty.close_answer ≡ some e))
unfolding kill
kill_left pty s = elim (Bool-cases s.closed) [
  | inl shut ↦ rw (shut, kill) ((refl, refl), (λ h. inl refl), (λ e h. cc))
  | inr open_ ↦ rw (open_, kill) ((refl, refl), (λ h. inr h), (λ e h. (refl, h)))
]

KillResult-after :
    (pty : Pty) (m : Manager) (id : Text) (s : Session) (r : Session × Option Error)
    → kill pty s ≡ r
    → KillResult pty m id (ok s) (after_kill m id r)
unfolding after_kill get
KillResult-after pty m id s (t, none) h =
    let (killed, why, _) = kill_left pty s in
    (
      (λ k ne. ap or_not_found (lookup-delete_ne id k m.by_id (λ e. ne (sym e)))),
      (
        t,
        subst (λ (r : Session × Option Error). IsKilled s r.0) h killed,
        inl (
          refl,
          why (ap (λ (r : Session × Option Error). r.1) h),
          ap or_not_found (lookup-delete_self id m.by_id),
          refl,
        ),
      ),
    )
KillResult-after pty m id s (t, some e) h =
    let (killed, _, why) = kill_left pty s in
    let (open_, fails) = why e (ap (λ (r : Session × Option Error). r.1) h) in
    (
      (λ k ne. ap or_not_found (lookup-insert_ne id k t m.by_id (λ x. ne (sym x)))),
      (
        t,
        subst (λ (r : Session × Option Error). IsKilled s r.0) h killed,
        inr (e, refl, open_, fails, ap or_not_found (lookup-insert_self id t m.by_id)),
      ),
    )

KillResult-found :
    (pty : Pty) (m : Manager) (id : Text) (r : Result Session)
    → get m id ≡ r
    → KillResult pty m id r (kill_found pty m id r)
unfolding kill_found
KillResult-found pty m id (err e) h = (refl, ap (λ x. some x) (get_err m id h))
KillResult-found pty m id (ok s) h = KillResult-after pty m id s (kill pty s) refl

-- `Kill`, by the session of the id: none, and nothing changes; or it is closed, with its pseudo-console,
-- and gone; or the pseudo-console does not close, and it stays.
pub kill_session-KillResult :
    (pty : Pty) (m : Manager) (id : Text) → KillResult pty m id (get m id) (kill_session pty m id)
unfolding kill_session
kill_session-KillResult pty m id = KillResult-found pty m id (get m id) refl

kill_session_found :
    (pty : Pty) (m : Manager) (id : Text) (r : Result Session)
    → get m id ≡ r
    → kill_session pty m id ≡ kill_found pty m id r
unfolding kill_session
kill_session_found pty m id r h = ap (kill_found pty m id) h

kill_closed : (pty : Pty) (s : Session) → s.closed ≡ true → kill pty s ≡ (s, none)
unfolding kill
kill_closed pty s h = ground arith

-- A `Kill` that failed because the pseudo-console did not close can be repeated, and then removes the
-- session, whatever the pseudo-console answers.
pub kill_session_retry :
    (pty pty' : Pty) (m : Manager) (id : Text) {e : Error}
    → (kill_session pty m id).1 ≡ some e
    → e ≢ not_found
    → ((kill_session pty' (kill_session pty m id).0 id).1 ≡ none)
      × (get (kill_session pty' (kill_session pty m id).0 id).0 id ≡ err not_found)
kill_session_retry pty pty' m id {e} h ne = again (kill_session-KillOutcome pty m id)
  where
    r : Manager × Option Error
    r = kill_session pty m id

    again :
        KillOutcome m id r
        → ((kill_session pty' r.0 id).1 ≡ none)
          × (get (kill_session pty' r.0 id).0 id ≡ err not_found)
    again (_, inl (x, _)) = absurd (ne cc)
    again (_, inr (inl (x, _, _))) = absurd (ne cc)
    again (_, inr (inr (_, s, _, at, shut))) =
        let step : kill_session pty' r.0 id ≡ after_kill r.0 id (s, none) =
          kill_session_found pty' r.0 id (ok s) at
          ∙ unfold kill_found in ap (after_kill r.0 id) (kill_closed pty' s shut) in
        rw step (unfold after_kill get in (refl, ap or_not_found (lookup-delete_self id r.0.by_id)))
