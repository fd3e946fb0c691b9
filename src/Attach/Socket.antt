-- ===== src/Attach/Socket.antt =====
-- relay/cmd/httpssh-relay/attach.go: the connection that the client opens, at the relay.
use httpssh.Base.{
  ◌≡◌, ◌≢◌, refl, sym, ap, ◌∙◌, Bool, true, false, false≢true, str_eq_iff, if◌then◌else◌, [], ◌++◌,
  Text, codes, trim_right, trim_space, Table, lookup, insert, lookup-insert_self, lookup-insert_ne,
  str_eq, has_prefix,
}
use httpssh.Manager.{Manager}
use httpssh.Auth.{bearer_from_request}
use httpssh.Server.{no_body, open_socket, api_mux}
use httpssh.Handler.{HttpRequest, Host, as_answer, handler}
use httpssh.Handler.Access.{handler_api}
use httpssh.Handler.Routing.{NoSlash, session_path, serve_api_io}
use httpssh.Attach.{
  Url, UrlLibrary, done, gave_up, empty_session_id, ws_scheme, build_attach_ws_url, io_path,
  ws_query,
}
use httpssh.Attach.Relay.{first_value, value}

-- The request of the upgrade as it arrives: it has no `Authorization` header.
abbrev pub arriving_socket : UrlLibrary → Url → HttpRequest
arriving_socket lib u = record {
  method = codes "GET";
  path = u.path;
  authorization = [];
  query = value (lib.query u.raw_query);
  create_body = no_body;
  rename_body = no_body;
}

role_ne_token : codes "role" ≢ codes "token"
role_ne_token e = cc e

token_of :
    (bearer : Text) (q : Table Text) → value (ws_query true bearer q) (codes "token") ≡ bearer
token_of bearer q = ap first_value (
    lookup-insert_ne (codes "role") (codes "token") (codes "host") (insert (codes "token") bearer q)
      role_ne_token
    ∙ lookup-insert_self (codes "token") bearer q)

role_of_query :
    (bearer : Text) (q : Table Text) → value (ws_query true bearer q) (codes "role") ≡ codes "host"
role_of_query bearer q =
    ap first_value
      (lookup-insert_self (codes "role") (codes "host") (insert (codes "token") bearer q))

-- A bearer in the query is taken as it is.
bearer_from_request_token :
    (token : Text) → bearer_from_request (record { authorization = []; token = token }) ≡ token
unfolding bearer_from_request trim_space has_prefix
bearer_from_request_token token = refl

-- What `build_attach_ws_url` sets.
built_parts :
    (lib : UrlLibrary) (base u : Url) (id bearer : Text)
    → build_attach_ws_url lib base id bearer true ≡ done u
    → (id ≢ [])
      × (u.path ≡ io_path base.path id)
      × (u.raw_query ≡ lib.encode (ws_query true bearer (lib.query base.raw_query)))
unfolding build_attach_ws_url
built_parts lib base u id bearer h = by_id (str_eq id []) refl h
  where
    by_id :
        (b : Bool)
        → str_eq id [] ≡ b
        → (if b
            then gave_up empty_session_id
            else done (record base {
              scheme = ws_scheme base.scheme;
              path = io_path base.path id;
              raw_query = lib.encode (ws_query true bearer (lib.query base.raw_query));
            }))
          ≡ done u
        → (id ≢ [])
          × (u.path ≡ io_path base.path id)
          × (u.raw_query ≡ lib.encode (ws_query true bearer (lib.query base.raw_query)))
    by_id true e k = cc
    by_id false e k = ((λ z. false≢true (sym e ∙ (str_eq_iff id []).1 z)), cc, cc)

-- The URL that the client builds opens a connection at the relay: with the relay's bearer, for a session id
-- of one segment, and a base URL with no path of its own, the request passes the gate and reaches the
-- handler of connections for that session, in the role `host`, which a session then counts as its host.
-- (`Query` is taken to find what `Encode` wrote, and the path to be clean.)
pub handler-build_attach_ws_url :
    (lib : UrlLibrary) (clean_path : Text → Text) (lan_bearer : Text) (h : Host) (m : Manager)
    (base u : Url) (id : Text)
    → build_attach_ws_url lib base id lan_bearer true ≡ done u
    → (let q = ws_query true lan_bearer (lib.query base.raw_query) in
        (name : Text) → lookup name (lib.query (lib.encode q)) ≡ lookup name q)
    → trim_right b'/' base.path ≡ []
    → lan_bearer ≢ []
    → NoSlash id
    → clean_path u.path ≡ u.path
    → handler clean_path lan_bearer h m (arriving_socket lib u)
      ≡ as_answer (open_socket (record h.socket { role = codes "host" }) m id)
unfolding api_mux
handler-build_attach_ws_url lib clean_path lan_bearer h m base u id built read no_path ne one
      clean =
    let (ne_id, at, asked) = built_parts lib base u id lan_bearer built in
    let q = ws_query true lan_bearer (lib.query base.raw_query) in
    let path : u.path ≡ session_path id ++ codes "/io" =
      at ∙ ap (λ (t : Text). t ++ codes "/api/sessions/" ++ id ++ codes "/io") no_path in
    let found = λ (name : Text).
      ap (λ (t : Text). value (lib.query t) name) asked ∙ ap first_value (read name) in
    handler_api clean_path lan_bearer h m (arriving_socket lib u)
      (codes "sessions/" ++ id ++ codes "/io") path clean
      (
        ne,
        bearer_from_request_token _
            ∙ found (codes "token")
            ∙ token_of lan_bearer (lib.query base.raw_query),
      )
    ∙ ap as_answer (serve_api_io h m (arriving_socket lib u) id one ne_id path refl)
    ∙ ap (λ (r : Text). as_answer (open_socket (record h.socket { role = r }) m id))
        (found (codes "role") ∙ role_of_query lan_bearer (lib.query base.raw_query))
