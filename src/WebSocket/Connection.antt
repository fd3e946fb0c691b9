-- ===== src/WebSocket/Connection.antt =====
-- relay/internal/server/websocket.go: who is connected, as what, and with which code the connection ends.
use httpssh.Base.{
  ℕ, ◌≡◌, ◌≢◌, ◌⊎◌, inl, inr, refl, sym, ap, ◌∙◌, Bool, true, false, not, Option, none, some, [],
  if◌then◌else◌, if_cases, Bool-cases, false≢true, length, Text, codes, str_eq, str_eq_iff,
}
use httpssh.Errors.{error_text, Result, ok, err}
use httpssh.Http.{failed}
use httpssh.Session.{Session, role_host, subscribe}
use httpssh.Manager.{Manager, get}
use httpssh.Session.History.{Event, joins, apply}
use httpssh.Manager.Pumps.{apply_to-get, apply_to_missing}
use httpssh.Manager.Steps.{apply_to}
use httpssh.Manager.Kills.{get_err}
use httpssh.Manager.Renames.{get-with_session, get-with_session_ne}
use httpssh.WebSocket.{
  WsError, is_fatal_ws, close_of, ws_subprotocol, Upgrade, not_upgraded, upgraded, Connected,
  no_session, no_upgrade, closed_with, subscribed, role_of, connect_upgraded, connect_found,
  connect,
}

-- A connection is closed with the code 1011 if the reader or the writer ended on a fatal error, and with
-- 1000 and no reason if neither did.
pub close_of_code :
    (write_err : Option (Option WsError)) (read_err : Option WsError)
    → (is_fatal_ws read_err ≡ true → (close_of write_err read_err).0 ≡ 1011)
      × ((e : Option WsError)
          → write_err ≡ some e
          → is_fatal_ws e ≡ true
          → (close_of write_err read_err).0 ≡ 1011)
      × (is_fatal_ws read_err ≡ false
          → ((e : Option WsError) → write_err ≡ some e → is_fatal_ws e ≡ false)
          → close_of write_err read_err ≡ (1000, []))
unfolding close_of
close_of_code none read_err = ((λ h. rw h), (λ e w h. cc), (λ h k. rw h))
close_of_code (some x) read_err =
    let P : ℕ × Text → Type 0 = λ c. c.0 ≡ 1011 in
    (
      (λ h. rw h),
      (λ e w h.
          if_cases P (is_fatal_ws read_err) _ _ (λ _. refl)
            λ _. if_cases P (is_fatal_ws x) _ _ (λ _. refl) (λ z. absurd (differ e w z h))),
      (λ h k. let z : is_fatal_ws x ≡ false = k x refl in rw (h, z)),
    )
  where
    differ :
        (e : Option WsError) → some x ≡ some e → is_fatal_ws x ≡ false → is_fatal_ws e ≡ true → ⊥
    differ e w z h = cc

-- The role of a subscriber, by the one that the query names.
abbrev pub IsRole : Text → Text → Type 0
IsRole query role =
    ((query ≡ codes "host") × (role ≡ codes "host")) ⊎ ((query ≢ codes "host") × (role ≡ []))

role_of-IsRole : (query : Text) → IsRole query (role_of query)
role_of-IsRole query =
    if_cases (IsRole query) (str_eq query role_host) _ _
      (λ e. inl ((str_eq_iff query role_host).0 e, refl))
      (λ e. inr ((λ z. false≢true (sym e ∙ (str_eq_iff query role_host).1 z)), refl))

-- What a request for a connection comes to, by the session of its id and by what `Accept` answers.
abbrev pub IsConnected :
    Manager → Text → Bool → Text → ℕ → Result Session → Upgrade → Manager × Connected → Type 0
IsConnected m id ended query now (err e) u (m', c) =
    (m' ≡ m) × (c ≡ no_session (failed 404 (codes "not_found") (codes "session: not found")))
IsConnected m id ended query now (ok s) not_upgraded (m', c) = (m' ≡ m) × (c ≡ no_upgrade)
IsConnected m id ended query now (ok s) (upgraded protocol) (m', c) =
    ((protocol ≢ codes "httpssh.v1")
      × (m' ≡ m)
      × (c ≡ closed_with 1008 (codes "subprotocol must be httpssh.v1")))
    ⊎ ((role : Text) × (protocol ≡ codes "httpssh.v1")
        × IsRole query role
        × (get m' id ≡ ok (subscribe s ended role now))
        × (c ≡ subscribed (length s.clients))
        × ((k : Text) → k ≢ id → get m' k ≡ get m k))

IsConnected-upgraded :
    (m : Manager) (id : Text) (s : Session) (u : Upgrade) (ended : Bool) (query : Text) (now : ℕ)
    → IsConnected m id ended query now (ok s) u (connect_upgraded m id s u ended query now)
unfolding connect_upgraded
IsConnected-upgraded m id s not_upgraded ended query now = (refl, refl)
IsConnected-upgraded m id s (upgraded protocol) ended query now =
    let s' : Session = subscribe s ended (role_of query) now in
    elim (Bool-cases (str_eq protocol ws_subprotocol)) [
      | inl e ↦ rw e (
          inr (
            role_of query,
            (str_eq_iff protocol ws_subprotocol).0 e,
            role_of-IsRole query,
            get-with_session m id s',
            refl,
            (λ k ne. get-with_session_ne m id k s' ne),
          ))
      | inr e ↦
          rw e
            (inl ((λ z. false≢true (sym e ∙ (str_eq_iff protocol ws_subprotocol).1 z)), refl, refl))
    ]

IsConnected-found :
    (m : Manager) (id : Text) (r : Result Session) (u : Upgrade) (ended : Bool) (query : Text)
    (now : ℕ)
    → get m id ≡ r
    → IsConnected m id ended query now r u (connect_found m id r u ended query now)
unfolding connect_found
IsConnected-found m id (err e) u ended query now h =
    (refl, ap (λ x. no_session (failed 404 (codes "not_found") (error_text x))) (get_err m id h))
IsConnected-found m id (ok s) u ended query now h = IsConnected-upgraded m id s u ended query now

-- A request for a connection to an unknown session is answered 404; one that is not upgraded and one with
-- another subprotocol than `httpssh.v1`, which is closed with the code 1008, change nothing. Every other
-- one makes one new subscriber of that session, with the role `host` exactly if the query says so, and
-- touches no other session.
pub connect-IsConnected :
    (m : Manager) (id : Text) (u : Upgrade) (ended : Bool) (query : Text) (now : ℕ)
    → IsConnected m id ended query now (get m id) u (connect m id u ended query now)
unfolding connect
connect-IsConnected m id u ended query now =
    IsConnected-found m id (get m id) u ended query now refl

-- What a request for a connection does to the sessions: an upgrade to `httpssh.v1` joins the session of
-- its id, if there is one.
pub connect-joins :
    (m : Manager) (id : Text) (u : Upgrade) (ended : Bool) (query : Text) (now : ℕ)
    → (connect m id u ended query now).0 ≡ elim u [
      | not_upgraded ↦ m
      | upgraded protocol ↦
          if str_eq protocol ws_subprotocol
          then apply_to m id (joins ended (role_of query) now)
          else m
    ]
unfolding connect connect_found connect_upgraded apply
connect-joins m id u ended query now = found (get m id) refl u
  where
    e : Event
    e = joins ended (role_of query) now

    found :
        (r : Result Session)
        → get m id ≡ r
        → (u : Upgrade)
        → (connect_found m id r u ended query now).0 ≡ elim u [
          | not_upgraded ↦ m
          | upgraded protocol ↦ if str_eq protocol ws_subprotocol then apply_to m id e else m
        ]
    found r h not_upgraded = by_result r
      where
        by_result : (r : Result Session) → (connect_found m id r not_upgraded ended query now).0 ≡ m
        by_result (err x) = refl
        by_result (ok s) = refl
    found (err x) h (upgraded protocol) =
        if_cases (λ n. m ≡ n) (str_eq protocol ws_subprotocol) _ _
          (λ _. sym (apply_to_missing m id e h)) (λ _. refl)
    found (ok s) h (upgraded protocol) = elim (Bool-cases (str_eq protocol ws_subprotocol)) [
      | inl k ↦ rw k (sym (apply_to-get m id s e h))
      | inr k ↦ rw k refl
    ]

-- A connection is at most one step of the manager.
pub connect-apply_to :
    (m : Manager) (id : Text) (u : Upgrade) (ended : Bool) (query : Text) (now : ℕ)
    → ((connect m id u ended query now).0 ≡ m)
      ⊎ ((connect m id u ended query now).0 ≡ apply_to m id (joins ended (role_of query) now))
unfolding connect connect_found connect_upgraded apply
connect-apply_to m id u ended query now = found (get m id) refl u
  where
    found :
        (r : Result Session)
        → get m id ≡ r
        → (u : Upgrade)
        → ((connect_found m id r u ended query now).0 ≡ m)
          ⊎ ((connect_found m id r u ended query now).0
              ≡ apply_to m id (joins ended (role_of query) now))
    found (err e) h u = inl refl
    found (ok s) h not_upgraded = inl refl
    found (ok s) h (upgraded protocol) =
        if_cases
          (λ (r : Manager × Connected).
            (r.0 ≡ m) ⊎ (r.0 ≡ apply_to m id (joins ended (role_of query) now)))
          (not (str_eq protocol ws_subprotocol)) _ _ (λ _. inl refl)
          (λ _. inr (sym (apply_to-get m id s (joins ended (role_of query) now) h)))
