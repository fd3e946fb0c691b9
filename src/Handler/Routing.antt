-- ===== src/Handler/Routing.antt =====
-- relay/internal/server/server.go: which handler a path of the API reaches.
use httpssh.Base.{
  ◌≡◌, ◌≢◌, refl, ap, ◌∙◌, arith, true, not, ◌&&◌, none, some, [], ◌∷◌, ◌++◌, if◌then◌else◌, Text,
  codes, str_eq, str_eq_ne, drop,
}
use httpssh.Manager.{Manager}
use httpssh.Server.{
  ApiCall, get_sessions, post_sessions, get_session, patch_session, delete_session, get_io, api_mux,
}
use httpssh.Handler.{
  HttpRequest, Host, slash, segments, Resource, sessions, session, session_io, resource_of, is_get,
  call_at, run_call, run_resource, serve_api,
}

-- An id is one segment of a path.
abbrev pub NoSlash : Text → Type 0
NoSlash [] = Unit {0}
NoSlash (x ∷ s) = (x ≢ slash) × NoSlash s

segments_one : (s : Text) → NoSlash s → segments s ≡ s ∷ []
unfolding segments
segments_one [] h = refl
segments_one (x ∷ s) (n, h) = ground (arith, segments_one s h)

segments-append : (s t : Text) → NoSlash s → segments (s ++ (slash ∷ t)) ≡ s ∷ segments t
unfolding segments
segments-append [] t h = refl
segments-append (x ∷ s) t (n, h) = ground (arith, segments-append s t h)

abbrev pub session_path : Text → Text
session_path id = codes "/api/sessions/" ++ id

module _ (id : Text) (one : NoSlash id) (ne : id ≢ []) where
  resource_of_session : resource_of (drop 2 (segments (session_path id))) ≡ some (session id)
  unfolding segments resource_of str_eq
  resource_of_session =
      ap (λ ss. resource_of (codes "sessions" ∷ ss)) (segments_one id one)
      ∙ ap (λ b. if not b then some (session id) else none) (str_eq_ne id [] ne)

  below_session :
      (rest : Text)
      → drop 2 (segments (session_path id ++ (slash ∷ rest)))
        ≡ codes "sessions" ∷ id ∷ segments rest
  unfolding segments
  below_session rest = ap (λ ss. codes "sessions" ∷ ss) (segments-append id rest one)

  resource_of_io :
      resource_of (drop 2 (segments (session_path id ++ codes "/io"))) ≡ some (session_io id)
  unfolding segments resource_of str_eq
  resource_of_io =
      ap resource_of (below_session (codes "io"))
      ∙ ap (λ b. if not b && true then some (session_io id) else none) (str_eq_ne id [] ne)

module _ (h : Host) (m : Manager) (r : HttpRequest) where
  -- A path that names a resource, by a method that it has.
  pub serve_api_at :
      (x : Resource) (call : ApiCall)
      → resource_of (drop 2 (segments r.path)) ≡ some x
      → call_at h r x ≡ some call
      → serve_api h m r ≡ api_mux m call
  unfolding serve_api run_resource run_call
  serve_api_at x call at handles = ap (run_resource h m r) at ∙ ap (run_call m) handles

  pub serve_api_sessions :
      r.path ≡ codes "/api/sessions"
      → (r.method ≡ codes "GET" → serve_api h m r ≡ api_mux m get_sessions)
        × (r.method ≡ codes "POST"
            → serve_api h m r ≡ api_mux m (post_sessions h.moment r.create_body))
  unfolding call_at str_eq segments resource_of
  serve_api_sessions at =
      let x = ap (λ p. resource_of (drop 2 (segments p))) at in
      (
        (λ g. serve_api_at sessions get_sessions x (
            ap
              (λ t.
                if is_get t
                then some get_sessions
                else if str_eq t (codes "POST")
                then some (post_sessions h.moment r.create_body)
                else none)
              g)),
        (λ g. serve_api_at sessions (post_sessions h.moment r.create_body) x (
            ap
              (λ t.
                if is_get t
                then some get_sessions
                else if str_eq t (codes "POST")
                then some (post_sessions h.moment r.create_body)
                else none)
              g)),
      )

  pub serve_api_session :
      (id : Text)
      → NoSlash id
      → id ≢ []
      → r.path ≡ session_path id
      → r.method ≡ codes "GET"
      → serve_api h m r ≡ api_mux m (get_session id)
  unfolding call_at str_eq
  serve_api_session id one ne at g =
      serve_api_at (session id) (get_session id)
        (ap (λ p. resource_of (drop 2 (segments p))) at ∙ resource_of_session id one ne)
        (ap
          (λ t.
            if is_get t
            then some (get_session id)
            else if str_eq t (codes "PATCH")
            then some (patch_session id r.rename_body)
            else if str_eq t (codes "DELETE")
            then some (delete_session h.pty id)
            else none)
          g)

  pub serve_api_io :
      (id : Text)
      → NoSlash id
      → id ≢ []
      → r.path ≡ session_path id ++ codes "/io"
      → r.method ≡ codes "GET"
      → serve_api h m r ≡ api_mux m (get_io (record h.socket { role = r.query (codes "role") }) id)
  unfolding call_at str_eq
  serve_api_io id one ne at g =
      let call : ApiCall = get_io (record h.socket { role = r.query (codes "role") }) id in
      serve_api_at (session_io id) call
        (ap (λ p. resource_of (drop 2 (segments p))) at ∙ resource_of_io id one ne)
        (ap (λ t. if is_get t then some call else none) g)
