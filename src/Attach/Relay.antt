-- ===== src/Attach/Relay.antt =====
-- relay/cmd/httpssh-relay/attach.go: the client's requests at the relay itself.
--
-- The relay is the network: a request arrives with its method, path, header and query, and a body as its
-- JSON says; an answer goes back as its status and body. `value` is `Values.Get`.
use httpssh.Base.{◌≡◌, ◌≢◌, Option, none, some, [], Text, codes, trim_right, Table, lookup}
use httpssh.Http.{replied, failed, bare}
use httpssh.Manager.{Manager}
use httpssh.Auth.Gate.{IsToken}
use httpssh.Server.{
  Body, no_body, body, CreateRequest, Reply, session_list, session_reply, created_reply,
  plain_error, redirect,
}
use httpssh.Handler.{HttpRequest, Host, Answer, api_answer, web_file, root_answer, handler}
use httpssh.Handler.Routing.{NoSlash, session_path}
use httpssh.Attach.{Url, UrlLibrary, AttachOpts}
use httpssh.Attach.Client.{
  ClientRequest, CreateSessionRequest, ClientBody, sessions_body, session_body, text_body, Exchange,
  lost, answer,
}

abbrev pub first_value : Option Text → Text
first_value none = []
first_value (some v) = v

abbrev pub value : Table Text → Text → Text
value q k = first_value (lookup k q)

abbrev pub create_request_of : CreateSessionRequest → CreateRequest
create_request_of r = record {
  shell = r.shell;
  cols = r.cols;
  rows = r.rows;
  title = r.title;
  idle_timeout_seconds = none;
}

abbrev pub body_of : Option CreateSessionRequest → Body CreateRequest
body_of none = no_body
body_of (some r) = body (create_request_of r)

abbrev pub arriving : UrlLibrary → ClientRequest → HttpRequest
arriving lib r = record {
  method = r.method;
  path = r.url.path;
  authorization = r.authorization;
  query = value (lib.query r.url.raw_query);
  create_body = body_of r.request_body;
  rename_body = no_body;
}

abbrev pub reply_body : Reply → ClientBody
reply_body (session_list l) = sessions_body l
reply_body (session_reply i) = session_body i
reply_body (created_reply location i) = session_body i
reply_body _ = text_body []

-- A redirect, which the client would follow, is taken as no answer.
abbrev pub exchange_of : Answer → Exchange
exchange_of (api_answer (replied n a)) = answer n (reply_body a)
exchange_of (api_answer (failed n code message)) = answer n (text_body message)
exchange_of (api_answer (bare n)) = answer n (text_body [])
exchange_of (web_file path) = answer 200 (text_body [])
exchange_of (root_answer (plain_error n message)) = answer n (text_body message)
exchange_of (root_answer (redirect n place)) = lost

unfoldable pub relay_net :
    UrlLibrary → (Text → Text) → Text → Host → ClientRequest → Manager → Manager × Exchange
unfolding handler
relay_net lib clean_path lan_bearer h r m =
    let (m', a) = handler clean_path lan_bearer h m (arriving lib r) in (m', exchange_of a)

-- The client reaches the relay: its URL has no path of its own, it has the relay's bearer, and the paths
-- that it asks for are clean.
pub record Reaches (lib : UrlLibrary) (clean_path : Text → Text) (lan_bearer : Text)
    (opts : AttachOpts) : Type 0 where
  pub base : Url
  pub parsed : lib.parse opts.listen_url ≡ some base
  pub no_path : trim_right b'/' base.path ≡ []
  pub same_bearer : opts.bearer ≡ lan_bearer
  pub token : IsToken lan_bearer
  pub clean_sessions : clean_path (codes "/api/sessions") ≡ codes "/api/sessions"
  pub one_segment : NoSlash opts.session_id
  pub clean_session :
      opts.session_id ≢ []
      → clean_path (session_path opts.session_id) ≡ session_path opts.session_id
