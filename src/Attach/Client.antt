-- ===== src/Attach/Client.antt =====
-- relay/cmd/httpssh-relay/attach.go: what the client asks the relay.
--
-- The network is a function on a state `S`, which is what the other side keeps: a request gets no answer,
-- or a status with a body. JSON is what its encoder and decoder make of it.
use httpssh.Base.{
  ℕ, not, ◌&&◌, Option, none, some, List, [], ◌++◌, ◌==◌, if◌then◌else◌, Text, codes, trim_space,
  trim_right,
}
use httpssh.Session.{SessionInfo}
use httpssh.Attach.{
  Url, UrlLibrary, AttachOpts, no_answer, undecodable, bad_status, unknown_session, unparsable_url,
  Attempt, done, gave_up,
}

-- An empty text and a 0 are left out of the body.
pub record CreateSessionRequest : Type 0 where
  pub shell : Text
  pub cols : ℕ
  pub rows : ℕ
  pub title : Text

pub record ClientRequest : Type 0 where
  pub method : Text
  pub url : Url
  pub authorization : Text
  pub request_body : Option CreateSessionRequest

-- A body is a list of sessions, a session, or another text.
pub data ClientBody : Type 0 where
  sessions_body : List SessionInfo → ClientBody
  session_body : SessionInfo → ClientBody
  text_body : Text → ClientBody

pub data Exchange : Type 0 where
  lost : Exchange
  answer : ℕ → ClientBody → Exchange

abbrev pub text_of : ClientBody → Text
text_of (text_body s) = trim_space s
text_of (sessions_body l) = []
text_of (session_body i) = []

unfoldable pub http_request :
    UrlLibrary → Text → AttachOpts → Text → Option CreateSessionRequest → Attempt ClientRequest
unfolding trim_right
http_request lib method opts path b = elim (lib.parse opts.listen_url) [
  | none ↦ gave_up (unparsable_url opts.listen_url)
  | some u ↦ done (record {
    method = method;
    url = record u { path = trim_right b'/' u.path ++ path };
    authorization = codes "Bearer " ++ opts.bearer;
    request_body = b;
  })
]

-- What `Decode` makes of a body that should be a list of sessions, or a session.
abbrev pub decoded_sessions : ClientBody → Attempt (List SessionInfo)
decoded_sessions (sessions_body l) = done l
decoded_sessions _ = gave_up (undecodable (codes "sessions"))

abbrev pub decoded_session : ClientBody → Attempt SessionInfo
decoded_session (session_body i) = done i
decoded_session _ = gave_up (undecodable (codes "session"))

unfoldable pub sessions_of : Exchange → Attempt (List SessionInfo)
unfolding trim_space
sessions_of lost = gave_up (no_answer (codes "list sessions"))
sessions_of (answer n b) =
    if not (n == 200) then gave_up (bad_status n (text_of b)) else decoded_sessions b

unfoldable pub session_of : Text → Exchange → Attempt SessionInfo
unfolding trim_space
session_of id lost = gave_up (no_answer (codes "fetch session"))
session_of id (answer n b) =
    if n == 404
    then gave_up (unknown_session id)
    else if not (n == 200)
    then gave_up (bad_status n (text_of b))
    else decoded_session b

abbrev id_of : Attempt SessionInfo → Attempt Text
id_of (done i) = done i.id
id_of (gave_up e) = gave_up e

unfoldable pub created_of : Exchange → Attempt Text
unfolding trim_space
created_of lost = gave_up (no_answer (codes "create session"))
created_of (answer n b) =
    if not (n == 201) && not (n == 200)
    then gave_up (bad_status n (text_of b))
    else id_of (decoded_session b)

module _ {S : Type 0} (lib : UrlLibrary) (net : ClientRequest → S → S × Exchange) where
  -- A request that is made, and what its answer is read as.
  unfoldable pub asked :
      {A : Type 0} → Attempt ClientRequest → (Exchange → Attempt A) → S → S × Attempt A
  asked (gave_up e) read s = (s, gave_up e)
  asked (done r) read s = let (s', x) = net r s in (s', read x)

  unfoldable pub list_sessions : AttachOpts → S → S × Attempt (List SessionInfo)
  unfolding asked http_request sessions_of
  list_sessions opts =
      asked (http_request lib (codes "GET") opts (codes "/api/sessions") none) sessions_of

  unfoldable pub fetch_session : AttachOpts → Text → S → S × Attempt SessionInfo
  unfolding asked http_request session_of
  fetch_session opts id =
      asked (http_request lib (codes "GET") opts (codes "/api/sessions/" ++ id) none)
        (session_of id)

  -- `size` is that of the terminal, 0 where it cannot be told.
  unfoldable pub create_session : AttachOpts → ℕ × ℕ → S → S × Attempt Text
  unfolding asked http_request created_of
  create_session opts (cols, rows) =
      asked
        (http_request lib (codes "POST") opts (codes "/api/sessions") (
          some (record {
            shell = opts.shell_name;
            cols = if cols == 0 then 120 else cols;
            rows = if rows == 0 then 40 else rows;
            title = opts.title_hint;
          })))
        created_of
