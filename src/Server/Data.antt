-- ===== src/Server/Data.antt =====
-- relay/internal/server/server.go: the bodies of requests and answers, and what the file handlers work
-- with.
use httpssh.Base.{ℕ, ℤ, Bool, Option, List, Text}
use httpssh.Session.{SessionInfo}
use httpssh.WebSocket.{Upgrade, Connected}
use httpssh.FileApi.{FileSystem, RootInfo, ListResult, Document, Service}

-- What `Decode` makes of a body: nothing (`io.EOF`), an error with its text, or the request.
pub data Body {ℓ} (A : Type ℓ) : Type ℓ where
  no_body : Body A
  bad_body : Text → Body A
  body : A → Body A

pub record CreateRequest : Type 0 where
  pub shell : Text
  pub cols : ℕ
  pub rows : ℕ
  pub title : Text
  pub idle_timeout_seconds : Option ℤ

-- The bodies of the answers; that of a creation with its `Location` header.
pub data Reply : Type 0 where
  health_reply : Text → ℕ → Reply
  session_list : List SessionInfo → Reply
  created_reply : Text → SessionInfo → Reply
  session_reply : SessionInfo → Reply
  file_roots : List RootInfo → Reply
  file_list : ListResult → Reply
  file_document : Document → Reply
  socket_reply : Connected → Reply
  plain_text : Text → Reply

-- The service that the server was given, if any, with the host's files and the decoder of Shift_JIS.
pub record FileBrowser : Type 0 where
  pub fs : FileSystem
  pub shift_jis : Text → Option Text
  pub service : Option Service

-- What a request for a connection asks of the host: what `Accept` makes of it, the status with which it
-- refuses, whether the context of the request is done, the role of the query, and the time.
pub record SocketRequest : Type 0 where
  pub upgrade : Upgrade
  pub refusal : ℕ
  pub ended : Bool
  pub role : Text
  pub now : ℕ
