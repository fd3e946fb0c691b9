-- ===== src/Server/Sessions.antt =====
-- relay/internal/server/server.go: what the handlers of `/api/sessions` answer and what becomes of the
-- sessions.
use httpssh.Base.{
  ℕ, ◌≡◌, ◌≢◌, ◌⊎◌, inl, inr, refl, subst, sym, ap, ◌∙◌, true, Option, none, some, ◌++◌, ℤ,
  if_cases, ◌∷◌, false, Text, codes,
}
use httpssh.Errors.{Error, Result, ok, err, error_text, is_invalid_dimensions, is_invalid_shell}
use httpssh.Http.{Response, replied, failed, bare}
use httpssh.Session.{Session, SessionInfo, Pty, info}
use httpssh.Session.Resize.{IsSized}
use httpssh.Manager.{Manager, Moment, create, get, rename, kill_session}
use httpssh.Manager.Registry.{create_ok, create_err}
use httpssh.Manager.Kills.{get_err, IsKilled, KillResult, kill_session-KillResult}
use httpssh.Manager.Renames.{
  rename_at, rename_missing, with_session, get-with_session, get-with_session_ne,
}
use httpssh.Server.{
  Body, no_body, bad_body, body, CreateRequest, Reply, created_reply, session_reply, zero_request,
  as_request, answered, idle_timeout_of, create_error, create_answer, create_with,
  handle_create_session, not_found_reply, get_answer, handle_get_session, rename_answer,
  handle_rename_session, kill_answer, handle_kill_session,
}

-- A creation that is answered with 201 and the new session, which is then found under its id, or with 400
-- or 503 and an error, all sessions as they were.
pub data CreateReplied (at : Moment) (m : Manager) : Manager × Response Reply → Type 0 where
  created :
      (m' : Manager) (s : Session)
      → get m' at.new_id ≡ ok s
      → ((k : Text) → k ≢ at.new_id → get m' k ≡ get m k)
      → IsSized s
      → CreateReplied at m
          (m', replied 201 (created_reply (codes "/api/sessions/" ++ s.id) (info s)))
  rejected :
      (m' : Manager) (n : ℕ) (code message : Text)
      → (n ≡ 400) ⊎ (n ≡ 503)
      → m'.by_id ≡ m.by_id
      → CreateReplied at m (m', failed n code message)

module _ (at : Moment) (m : Manager) where
  create_error-CreateReplied :
      (m' : Manager) (e : Error) → m'.by_id ≡ m.by_id → CreateReplied at m (m', create_error e)
  unfolding create_error
  create_error-CreateReplied m' e h =
      if_cases (λ r. CreateReplied at m (m', r)) (is_invalid_dimensions e) _ _
        (λ _. rejected m' 400 (codes "invalid_dimensions") (error_text e) (inl refl) h)
        λ _.
          if_cases (λ r. CreateReplied at m (m', r)) (is_invalid_shell e) _ _
            (λ _. rejected m' 400 (codes "invalid_shell") (error_text e) (inl refl) h)
            (λ _. rejected m' 503 (codes "spawn_failed") (error_text e) (inr refl) h)

  create_with-CreateReplied :
      (req : CreateRequest) (t : Option ℤ) → CreateReplied at m (create_with at m req t)
  unfolding create_with
  create_with-CreateReplied req none = rejected m 400 _ _ (inl refl) refl
  create_with-CreateReplied req (some t) = by_result (create at m (as_request req t)).1 refl
    where
      by_result :
          (r : Result Session)
          → (create at m (as_request req t)).1 ≡ r
          → CreateReplied at m (answered create_answer (create at m (as_request req t)))
      by_result (ok s) e =
          let (found, others, sized, _, _) = create_ok at m (as_request req t) e in
          subst (λ r. CreateReplied at m ((create at m (as_request req t)).0, create_answer r))
            (sym e)
            (unfold create_answer in
              created (create at m (as_request req t)).0 s found others sized)
      by_result (err x) e =
          subst (λ r. CreateReplied at m ((create at m (as_request req t)).0, create_answer r))
            (sym e)
            (unfold create_answer in
              create_error-CreateReplied (create at m (as_request req t)).0 x
                (create_err at m (as_request req t) e).0)

  -- `POST /api/sessions`, whatever the body: the answer is 201 with the new session, which has dimensions
  -- in range and is found under its new id while every other id leads where it did; or it is 400 or 503
  -- and the sessions are as they were.
  pub handle_create_session-CreateReplied :
      (b : Body CreateRequest) → CreateReplied at m (handle_create_session at m b)
  unfolding handle_create_session
  handle_create_session-CreateReplied no_body =
      create_with-CreateReplied zero_request (idle_timeout_of none)
  handle_create_session-CreateReplied (bad_body e) = rejected m 400 _ e (inl refl) refl
  handle_create_session-CreateReplied (body req) =
      create_with-CreateReplied req (idle_timeout_of req.idle_timeout_seconds)

-- The answer to `GET` on an id without a session.
abbrev pub unknown_id : Response Reply
unknown_id = failed 404 (codes "not_found") (codes "session: not found")

handle_get_session_at :
    (m : Manager) (id : Text) (r : Result Session)
    → get m id ≡ r
    → handle_get_session m id ≡ get_answer r
unfolding handle_get_session
handle_get_session_at m id r h = ap get_answer h

-- What `DELETE` on an id comes to, by the session that it has: no session and no change; or no session
-- any more, which is killed; or, where the pseudo-console does not close, still a session.
abbrev pub KillReplied : Pty → Manager → Text → Result Session → Manager × Response Reply → Type 0
KillReplied pty m id (err e) (m', r) = (m' ≡ m) × (r ≡ unknown_id)
KillReplied pty m id (ok s) (m', r) =
    ((k : Text) → k ≢ id → get m' k ≡ get m k)
    × ((t : Session) × IsKilled s t
        × (((r ≡ bare 204)
              × ((s.closed ≡ true) ⊎ (pty.close_answer ≡ none))
              × (handle_get_session m' id ≡ unknown_id)
              × (m'.unlisted ≡ t ∷ m.unlisted))
            ⊎ ((e : Error) × (r ≡ not_found_reply e)
                × (s.closed ≡ false)
                × (pty.close_answer ≡ some e)
                × (get m' id ≡ ok t)
                × (handle_get_session m' id ≡ replied 200 (session_reply (info t))))))

KillReplied-of_KillResult :
    (pty : Pty) (m : Manager) (id : Text) (o : Result Session) (r : Manager × Option Error)
    → KillResult pty m id o r
    → KillReplied pty m id o (answered kill_answer r)
unfolding kill_answer
KillReplied-of_KillResult pty m id (err e) r (same, missing) = (same, ap kill_answer missing)
KillReplied-of_KillResult pty m id (ok s) r (others, (t, killed, inl (done_, why, gone, kept))) = (
  others,
  (
    t,
    killed,
    inl (
      ap kill_answer done_,
      why,
      (handle_get_session_at r.0 id _ gone ∙ unfold get_answer in refl),
      kept,
    ),
  ),
)
KillReplied-of_KillResult pty m id (ok s) r
      (others, (t, killed, inr (e, failed_so, open_, why, at))) =
    (
      others,
      (
        t,
        killed,
        inr (
          e,
          ap kill_answer failed_so,
          open_,
          why,
          at,
          (handle_get_session_at r.0 id _ at ∙ unfold get_answer in refl),
        ),
      ),
    )

-- `DELETE`, by the session of the id. An unknown id is answered 404, and nothing changes. A session is
-- killed, and no other is touched: 204, and it is unknown from then on, if it was closed before or its
-- pseudo-console closes; and 404 `not_found` as well where that fails, although it is still there, and
-- `GET` still answers 200.
pub handle_kill_session-KillReplied :
    (pty : Pty) (m : Manager) (id : Text)
    → KillReplied pty m id (get m id) (handle_kill_session pty m id)
unfolding handle_kill_session
handle_kill_session-KillReplied pty m id =
    KillReplied-of_KillResult pty m id (get m id) (kill_session pty m id)
      (kill_session-KillResult pty m id)

-- `PATCH` on a session that is there.
handle_rename_session-get :
    (m : Manager) (id title : Text) (s : Session)
    → get m id ≡ ok s
    → let (m', r) = handle_rename_session m id (body title) in
      (r ≡ replied 200 (session_reply (record (info s) { title = title })))
      × (handle_get_session m' id ≡ r)
      × ((k : Text) → k ≢ id → handle_get_session m' k ≡ handle_get_session m k)
unfolding handle_rename_session
handle_rename_session-get m id title s h = from (rename m id title) (rename_at m id title s h)
  where
    s' : Session
    s' = record s { title = title }

    from :
        (p : Manager × Result SessionInfo)
        → p ≡ (with_session m id s', ok (info s'))
        → (rename_answer p.1 ≡ replied 200 (session_reply (record (info s) { title = title })))
          × (handle_get_session p.0 id ≡ rename_answer p.1)
          × ((k : Text) → k ≢ id → handle_get_session p.0 k ≡ handle_get_session m k)
    from p e =
        let at : p.0 ≡ with_session m id s' = ap (λ q. q.0) e in
        let answer : rename_answer p.1 ≡ replied 200 (session_reply (info s')) =
          ap (λ q. rename_answer q.1) e ∙ unfold rename_answer in refl in
        (
          (answer ∙ unfold info in refl),
          (handle_get_session_at p.0 id (ok s') (ap (λ q. get q id) at ∙ get-with_session m id s')
              ∙ unfold get_answer in sym answer),
          (λ k ne.
              unfold handle_get_session in
              ap get_answer (ap (λ q. get q k) at ∙ get-with_session_ne m id k s' ne)),
        )

-- What `PATCH` on an id comes to, by the session that it has and by the body.
abbrev pub RenameReplied :
    Manager → Text → Body Text → Result Session → Manager × Response Reply → Type 0
RenameReplied m id (body title) (err e) (m', r) = (m' ≡ m) × (r ≡ unknown_id)
RenameReplied m id (body title) (ok s) (m', r) =
    (r ≡ replied 200 (session_reply (record (info s) { title = title })))
    × (handle_get_session m' id ≡ r)
    × ((k : Text) → k ≢ id → handle_get_session m' k ≡ handle_get_session m k)
RenameReplied m id _ o (m', r) =
    (m' ≡ m) × ((message : Text) × (r ≡ failed 400 (codes "invalid_body") message))

-- `PATCH`, by the body and the session of the id. Without a body, or with one that does not decode, it is
-- answered 400 `invalid_body`, and an unknown id with 404; both change nothing. Otherwise the answer is
-- what `GET` answers from then on, the session with the new title and otherwise as it was, and what
-- `GET` answers for any other id stays.
pub handle_rename_session-RenameReplied :
    (m : Manager) (id : Text) (b : Body Text)
    → RenameReplied m id b (get m id) (handle_rename_session m id b)
unfolding handle_rename_session rename_answer
handle_rename_session-RenameReplied m id no_body = (refl, (_, refl))
handle_rename_session-RenameReplied m id (bad_body e) = (refl, (e, refl))
handle_rename_session-RenameReplied m id (body title) = from (get m id) refl
  where
    from :
        (o : Result Session)
        → get m id ≡ o
        → RenameReplied m id (body title) o (handle_rename_session m id (body title))
    from (ok s) h = handle_rename_session-get m id title s h
    from (err e) h =
        let same = rename_missing m id title h in
        (
          ap (λ q. (answered rename_answer q).0) same,
          ap (λ q. (answered rename_answer q).1) same
              ∙ ap (λ x. failed 404 (codes "not_found") (error_text x)) (get_err m id h),
        )
