-- ===== src/Attach/Exchanges.antt =====
-- relay/cmd/httpssh-relay/attach.go: what the client's requests come to at the relay.
use httpssh.Base.{
  ℕ, ◌≡◌, ◌≢◌, refl, ap, ◌∙◌, Option, none, some, [], ◌++◌, ◌==◌, if◌then◌else◌, negsuc, Text,
  codes,
}
use httpssh.Http.{Response}
use httpssh.Manager.{Manager, create, get, list}
use httpssh.Auth.{bearer_prefix}
use httpssh.Auth.Gate.{bearer_from_request_header}
use httpssh.Server.{Reply, api_mux, as_request, create_with, create_answer, get_answer}
use httpssh.Handler.{Host, Answer, api_answer, serve_api}
use httpssh.Handler.Access.{handler_api}
use httpssh.Handler.Routing.{session_path, serve_api_sessions, serve_api_session}
use httpssh.Attach.Relay.{relay_net, arriving, create_request_of, exchange_of, Reaches}
use httpssh.Attach.{UrlLibrary, AttachOpts, Attempt, done}
use httpssh.Attach.Client.{
  ClientRequest, CreateSessionRequest, Exchange, http_request, asked, sessions_of, session_of,
  created_of, list_sessions, fetch_session, create_session,
}

module _ (lib : UrlLibrary) (clean_path : Text → Text) (lan_bearer : Text) (h : Host)
    (opts : AttachOpts) (k : Reaches lib clean_path lan_bearer opts) where
  -- A request of the client as it arrives.
  abbrev sent : Text → Text → Option CreateSessionRequest → ClientRequest
  sent method path b = record {
    method = method;
    url = record k.base { path = path };
    authorization = bearer_prefix ++ lan_bearer;
    request_body = b;
  }

  http_request_sent :
      (method path : Text) (b : Option CreateSessionRequest)
      → http_request lib method opts path b ≡ done (sent method path b)
  unfolding http_request
  http_request_sent method path b =
      rw (k.parsed, http_request)
        (ap
            (λ (t : Text). done (record {
              method = method;
              url = record k.base { path = t ++ path };
              authorization = bearer_prefix ++ opts.bearer;
              request_body = b;
            }))
            k.no_path
          ∙ ap
              (λ (t : Text). done (record {
                method = method;
                url = record k.base { path = path };
                authorization = bearer_prefix ++ t;
                request_body = b;
              }))
              k.same_bearer)

  relay_net_api :
      (method path rest : Text) (b : Option CreateSessionRequest) (m : Manager)
      → path ≡ codes "/api/" ++ rest
      → clean_path path ≡ path
      → relay_net lib clean_path lan_bearer h (sent method path b) m ≡ (
          let r = serve_api h m (arriving lib (sent method path b)) in
          (r.0, exchange_of (api_answer r.1)))
  unfolding relay_net
  relay_net_api method path rest b m at clean =
      ap (λ (x : Manager × Answer). (x.0, exchange_of x.1))
        (handler_api clean_path lan_bearer h m (arriving lib (sent method path b)) rest at clean
          (k.token.ne_nil, bearer_from_request_header lan_bearer _ k.token))

  asked_api :
      {A : Type 0} (method path rest : Text) (b : Option CreateSessionRequest)
      (read : Exchange → Attempt A) (m : Manager)
      → path ≡ codes "/api/" ++ rest
      → clean_path path ≡ path
      → asked lib
          (relay_net lib clean_path lan_bearer h)
          (http_request lib method opts path b)
          read
          m
        ≡ (let r = serve_api h m (arriving lib (sent method path b)) in
            (r.0, read (exchange_of (api_answer r.1))))
  unfolding asked
  asked_api method path rest b read m at clean =
      ap (λ q. asked lib (relay_net lib clean_path lan_bearer h) q read m)
        (http_request_sent method path b)
      ∙ ap (λ (x : Manager × Exchange). (x.0, read x.1))
          (relay_net_api method path rest b m at clean)

  pub list_sessions_relay :
      (m : Manager)
      → list_sessions lib (relay_net lib clean_path lan_bearer h) opts m ≡ (m, done (list m))
  unfolding list_sessions sessions_of api_mux
  list_sessions_relay m =
      asked_api (codes "GET") (codes "/api/sessions") (codes "sessions") none sessions_of m refl
        k.clean_sessions
      ∙ ap (λ (r : Manager × Response Reply). (r.0, sessions_of (exchange_of (api_answer r.1))))
          ((serve_api_sessions h m (arriving lib (sent (codes "GET") (codes "/api/sessions") none))
              refl).0
            refl)

  pub fetch_session_relay :
      (m : Manager)
      → opts.session_id ≢ []
      → fetch_session lib (relay_net lib clean_path lan_bearer h) opts opts.session_id m ≡ (
        m,
        session_of opts.session_id (exchange_of (api_answer (get_answer (get m opts.session_id)))),
      )
  unfolding fetch_session session_of api_mux
  fetch_session_relay m ne =
      let id = opts.session_id in
      asked_api (codes "GET") (session_path id) (codes "sessions/" ++ id) none (session_of id) m
        refl (k.clean_session ne)
      ∙ ap (λ (r : Manager × Response Reply). (r.0, session_of id (exchange_of (api_answer r.1))))
          (serve_api_session h m (arriving lib (sent (codes "GET") (session_path id) none)) id
            k.one_segment ne refl refl)

  -- What the client asks for in a new session.
  abbrev pub asked_for : ℕ × ℕ → CreateSessionRequest
  asked_for (cols, rows) = record {
    shell = opts.shell_name;
    cols = if cols == 0 then 120 else cols;
    rows = if rows == 0 then 40 else rows;
    title = opts.title_hint;
  }

  pub create_session_relay :
      (size : ℕ × ℕ) (m : Manager)
      → create_session lib (relay_net lib clean_path lan_bearer h) opts size m ≡ (
          let r = create h.moment m (as_request (create_request_of (asked_for size)) (negsuc 0)) in
          (r.0, created_of (exchange_of (api_answer (create_answer r.1)))))
  unfolding create_session created_of api_mux create_with
  create_session_relay (cols, rows) m =
      let b = some (asked_for (cols, rows)) in
      asked_api (codes "POST") (codes "/api/sessions") (codes "sessions") b created_of m refl
        k.clean_sessions
      ∙ ap (λ (r : Manager × Response Reply). (r.0, created_of (exchange_of (api_answer r.1))))
          ((serve_api_sessions h m (arriving lib (sent (codes "POST") (codes "/api/sessions") b))
              refl).1
            refl)
