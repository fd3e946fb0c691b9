-- ===== src/Attach/Joining.antt =====
-- relay/cmd/httpssh-relay/attach.go: which session the client joins at the relay.
use httpssh.Base.{
  ℕ, ◌≡◌, inl, inr, refl, sym, ap, ◌∙◌, subst, some, List, [], ◌∷◌, negsuc, Text, str_eq,
  str_eq_iff, if_cases, Bool-cases, Table, lookup, Every, map,
}
use httpssh.Errors.{Error, Result, ok, err, is_invalid_dimensions, is_invalid_shell}
use httpssh.Http.{Response}
use httpssh.Session.{Session, SessionInfo, info}
use httpssh.Manager.{Manager, Request, create, get, list}
use httpssh.Manager.Registry.{create-Created, create_ok}
use httpssh.Manager.Pumps.{lookup_of_get, get_of_lookup}
use httpssh.Manager.System.{lookup-IsListed, IsGood, IsListed, IsGood-create}
use httpssh.Server.{Reply, as_request, create_error, create_answer, get_answer}
use httpssh.Handler.{Host, api_answer}
use httpssh.Attach.Choice.{Input, resolve_session_id}
use httpssh.Attach.Choice.Chosen.{Member, IsChosen, resolve_session_id-IsChosen}
use httpssh.Attach.Exchanges.{
  asked_for, list_sessions_relay, fetch_session_relay, create_session_relay,
}
use httpssh.Attach.Relay.{relay_net, create_request_of, exchange_of, Reaches}
use httpssh.Attach.{UrlLibrary, AttachOpts, Attempt, done}
use httpssh.Attach.Client.{session_of, created_of, create_session}

-- A creation that failed makes no session for the client.
not_created :
    (x : Error) (id : Text) → created_of (exchange_of (api_answer (create_error x))) ≡ done id → ⊥
unfolding created_of create_error
not_created x id =
    if_cases P (is_invalid_dimensions x) _ _ (λ _ h. cc)
      (λ _. if_cases P (is_invalid_shell x) _ _ (λ _ h. cc) (λ _ h. cc))
  where
    P : Response Reply → Type 0
    P r = created_of (exchange_of (api_answer r)) ≡ done id → ⊥

-- An entry of the list has its session under its id.
lookup-Member :
    (b : Table Session) (i : SessionInfo)
    → Every IsListed b
    → Member i (map (λ (e : Text × Session). info e.1) b)
    → (s : Session) × (lookup i.id b ≡ some s)
unfolding lookup info
lookup-Member [] i g h = absurd h
lookup-Member ((key, s) ∷ b) i (l, g) (inl h) =
    let own : key ≡ i.id = sym l.0 ∙ sym (ap (λ (y : SessionInfo). y.id) h) in
    (s, rw ((str_eq_iff key i.id).1 own) refl)
lookup-Member ((key, s) ∷ b) i (l, g) (inr h) =
    let (s', found) = lookup-Member b i g h in
    elim (Bool-cases (str_eq key i.id)) [ inl e ↦ (s, rw e refl) | inr e ↦ (s', rw e found) ]

module _ (lib : UrlLibrary) (clean_path : Text → Text) (lan_bearer : Text) (h : Host)
    (opts : AttachOpts) (k : Reaches lib clean_path lan_bearer opts) where
  -- The session of an id is there.
  abbrev pub IsThere : Manager → Text → Type 0
  IsThere m id = (s : Session) × (get m id ≡ ok s)

  fetched-IsThere :
      (id : Text) (m t : Manager) (r : Result Session) (i : SessionInfo)
      → get m id ≡ r
      → m ≡ t
      → session_of id (exchange_of (api_answer (get_answer r))) ≡ done i
      → IsThere t id
  unfolding session_of get_answer
  fetched-IsThere id m t (ok s) i g same e = (s, ap (λ n. get n id) (sym same) ∙ g)
  fetched-IsThere id m t (err x) i g same e = cc

  made-IsThere :
      (m n t : Manager) (r : Result Session) (req : Request) (id : Text)
      → IsGood m
      → create h.moment m req ≡ (n, r)
      → n ≡ t
      → created_of (exchange_of (api_answer (create_answer r))) ≡ done id
      → IsThere t id
  unfolding created_of create_answer create_error info
  made-IsThere m n t (err x) req id g c same e = absurd (not_created x id e)
  made-IsThere m n t (ok s) req id g c same e =
      let at_new : get n h.moment.new_id ≡ ok s =
        ap (λ (r : Manager × Result Session). get r.0 h.moment.new_id) (sym c)
        ∙ (create_ok h.moment m req (ap (λ (r : Manager × Result Session). r.1) c)).0 in
      let good : IsGood n =
        subst (λ (r : Manager × Result Session). IsGood r.0) c
          (IsGood-create h.moment m (create h.moment m req) g (create-Created h.moment m req)) in
      let own : s.id ≡ h.moment.new_id =
        (lookup-IsListed n h.moment.new_id good (lookup_of_get n h.moment.new_id s at_new)).0 in
      let asked : s.id ≡ id = cc in
      (s, ap (λ u. get u id) (sym same) ∙ ap (get n) (sym asked ∙ own) ∙ at_new)

  created-IsThere :
      (size : ℕ × ℕ) (m t : Manager) (id : Text)
      → IsGood m
      → create_session lib (relay_net lib clean_path lan_bearer h) opts size m ≡ (t, done id)
      → IsThere t id
  created-IsThere size m t id g e =
      let req : Request =
        as_request (create_request_of (asked_for lib clean_path lan_bearer h opts k size))
          (negsuc 0) in
      let r : Manager × Result Session = create h.moment m req in
      let both = sym (create_session_relay lib clean_path lan_bearer h opts k size m) ∙ e in
      made-IsThere m r.0 t r.1 req id g refl (ap (λ (x : Manager × Attempt Text). x.0) both)
        (ap (λ (x : Manager × Attempt Text). x.1) both)

  -- At a relay that keeps its invariant, the session that the client joins is there: whether it was
  -- named by a flag, made, or picked from the menu.
  pub resolve_session_id-IsThere :
      (size : ℕ × ℕ) (input : Input) (m t : Manager) (id : Text)
      → IsGood m
      → resolve_session_id lib (relay_net lib clean_path lan_bearer h) opts size input m
        ≡ (t, done id)
      → IsThere t id
  resolve_session_id-IsThere size input m t id g e = by_case (
      subst (IsChosen lib (relay_net lib clean_path lan_bearer h) opts size m) e
        (resolve_session_id-IsChosen lib (relay_net lib clean_path lan_bearer h) opts size m input))
    where
      unpack : {xs ys : List SessionInfo} → done xs ≡ done ys → xs ≡ ys
      unpack q = cc

      by_case :
          IsChosen lib (relay_net lib clean_path lan_bearer h) opts size m (t, done id)
          → IsThere t id
      by_case (inl (ne, same, (i, f))) =
          let both = sym (fetch_session_relay lib clean_path lan_bearer h opts k m ne) ∙ f in
          subst (IsThere t) (sym same) (
            fetched-IsThere opts.session_id m t (get m opts.session_id) i refl
              (ap (λ (x : Manager × Attempt SessionInfo). x.0) both)
              (ap (λ (x : Manager × Attempt SessionInfo). x.1) both))
      by_case (inr (inl (u, (inl same), c))) =
          created-IsThere size u t id (subst IsGood (sym same) g) c
      by_case (inr (inl (u, (inr (is, l)), c))) =
          let both = sym (list_sessions_relay lib clean_path lan_bearer h opts k m) ∙ l in
          created-IsThere size u t id
            (subst IsGood (ap (λ (x : Manager × Attempt (List SessionInfo)). x.0) both) g) c
      by_case (inr (inr (is, i, l, among, free, same))) =
          let both = sym (list_sessions_relay lib clean_path lan_bearer h opts k m) ∙ l in
          let listed : list m ≡ is =
            unpack (ap (λ (x : Manager × Attempt (List SessionInfo)). x.1) both) in
          let (s, found) =
            lookup-Member m.by_id i g.sound (unfold list in subst (Member i) (sym listed) among) in
          (
            s,
            ap (λ n. get n id) (sym (ap (λ (x : Manager × Attempt (List SessionInfo)). x.0) both))
                ∙ ap (get m) same
                ∙ get_of_lookup m i.id s found,
          )
