-- ===== src/AccessLog.antt =====
-- relay/internal/server/access_log.go and relay/internal/server/recovery.go: what is logged of a response.
--
-- A handler is what it calls on its `http.ResponseWriter`, and how it ends. The writer of `net/http` sends
-- the first final status that it is given, 200 where a body or the end comes first; a status from 100
-- to 199 other than 101 is interim. The times and the addresses of a line are left out.
pub mod Recorded
mod Tests
use httpssh.Base.{
  ℕ, ◌+◌, Bool, true, false, not, ◌&&◌, Option, none, some, List, [], ◌∷◌, ◌++◌, leb, ◌==◌,
  if◌then◌else◌, is_some, Text,
}

-- `WriteHeader`, and `Write` with the number of bytes that the connection took.
pub data WriterCall : Type 0 where
  write_header : ℕ → WriterCall
  write_body : ℕ → WriterCall

pub data Ending : Type 0 where
  returns : Ending
  -- A panic, with whether it is `http.ErrAbortHandler`.
  panics : Bool → Ending

-- What has gone out to the client.
pub record ResponseWriter : Type 0 where
  pub sent_status : Option ℕ
  pub sent_bytes : ℕ

abbrev pub is_interim : ℕ → Bool
is_interim code = leb 100 code && leb code 199 && not (code == 101)

abbrev pub or_sent : Option ℕ → ℕ → Option ℕ
or_sent none code = some code
or_sent (some c) code = some c

unfoldable pub send_header : ResponseWriter → ℕ → ResponseWriter
send_header w code =
    if is_interim code then w else record w { sent_status = or_sent w.sent_status code }

unfoldable pub send_body : ResponseWriter → ℕ → ResponseWriter
send_body w n = record w { sent_status = or_sent w.sent_status 200; sent_bytes = w.sent_bytes + n }

-- `statusRecorder`
pub record StatusRecorder : Type 0 where
  pub response_writer : ResponseWriter
  pub status : ℕ
  pub bytes : ℕ
  pub wrote_header : Bool

unfoldable pub record_header : StatusRecorder → ℕ → StatusRecorder
unfolding send_header
record_header r code = if r.wrote_header then r else record r {
  response_writer = send_header r.response_writer code;
  status = code;
  wrote_header = true;
}

unfoldable pub record_body : StatusRecorder → ℕ → StatusRecorder
unfolding send_body
record_body r n = record r {
  response_writer = send_body r.response_writer n;
  bytes = r.bytes + n;
  wrote_header = true;
}

unfoldable pub record_all : StatusRecorder → List WriterCall → StatusRecorder
unfolding record_header record_body
record_all r [] = r
record_all r (write_header code ∷ cs) = record_all (record_header r code) cs
record_all r (write_body n ∷ cs) = record_all (record_body r n) cs

-- The lines of the two middlewares.
pub data LogLine : Type 0 where
  http_request : Text → Text → ℕ → ℕ → LogLine
  handler_panic : Text → Text → LogLine

pub record Served : Type 0 where
  pub writer : ResponseWriter
  pub lines : List LogLine
  -- A panic that goes on.
  pub aborted : Bool

abbrev pub new_recorder : ResponseWriter → StatusRecorder
new_recorder w = record { response_writer = w; status = 200; bytes = 0; wrote_header = false }

-- `accessLogMiddleware` round a handler: the writer, the line if the handler returns, and the ending.
unfoldable pub access_log :
    Text → Text → ResponseWriter → List WriterCall → Ending → ResponseWriter × List LogLine × Ending
unfolding record_all
access_log method path w cs ending =
    let r : StatusRecorder = record_all (new_recorder w) cs in
    (
      r.response_writer,
      elim ending [ returns ↦ http_request method path r.status r.bytes ∷ [] | panics abort ↦ [] ],
      ending,
    )

-- `recoverMiddleware` round that.
abbrev pub recovered : Text → Text → ResponseWriter × List LogLine × Ending → Served
recovered method path (w, lines, returns) = record { writer = w; lines = lines; aborted = false }
recovered method path (w, lines, panics true) = record { writer = w; lines = lines; aborted = true }
recovered method path (w, lines, panics false) = record {
  writer = send_header w 500;
  lines = lines ++ (handler_panic method path ∷ []);
  aborted = false;
}

-- `net/http` completes a response that has no status yet.
abbrev pub completed : Served → ResponseWriter
completed s = elim s.aborted [
  | true ↦ s.writer
  | false ↦ record s.writer { sent_status = or_sent s.writer.sent_status 200 }
]

abbrev pub fresh : ResponseWriter
fresh = record { sent_status = none; sent_bytes = 0 }

unfoldable pub serve_logged : Text → Text → List WriterCall → Ending → Served
unfolding access_log send_header
serve_logged method path cs ending = recovered method path (access_log method path fresh cs ending)
