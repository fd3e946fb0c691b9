-- ===== src/Protocol.antt =====
-- relay/internal/session/protocol.go: the frames of the WebSocket protocol.
pub mod Wire
use httpssh.Base.{ℕ, Option, none, some, ℤ, Text, codes, []}

abbrev pub frame_replay : Text
frame_replay = codes "replay"

abbrev pub frame_out : Text
frame_out = codes "out"

abbrev pub frame_exit : Text
frame_exit = codes "exit"

abbrev pub frame_pong : Text
frame_pong = codes "pong"

abbrev pub frame_error : Text
frame_error = codes "error"

abbrev pub frame_in : Text
frame_in = codes "in"

abbrev pub frame_resize : Text
frame_resize = codes "resize"

abbrev pub frame_ping : Text
frame_ping = codes "ping"

pub record ServerFrame : Type 0 where
  pub t : Text
  pub d : Text
  pub code : Option ℤ
  pub message : Text

-- `c` and `r` are 16-bit; the decoder refuses larger numbers.
pub record ClientFrame : Type 0 where
  pub t : Text
  pub d : Text
  pub c : ℕ
  pub r : ℕ

abbrev pub replay : Text → ServerFrame
replay s = record { t = frame_replay; d = s; code = none; message = [] }

abbrev pub out : Text → ServerFrame
out s = record { t = frame_out; d = s; code = none; message = [] }

abbrev pub exit : ℤ → ServerFrame
exit n = record { t = frame_exit; d = []; code = some n; message = [] }

abbrev pub pong : ServerFrame
pong = record { t = frame_pong; d = []; code = none; message = [] }

abbrev pub error : Text → ServerFrame
error s = record { t = frame_error; d = []; code = none; message = s }
