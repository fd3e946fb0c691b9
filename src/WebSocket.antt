-- ===== src/WebSocket.antt =====
-- relay/internal/server/websocket.go: a client's connection to a session.
--
-- The WebSocket library is not modelled: what `Accept` and `Read` answer is an argument, and what is
-- written is a list of frames. Status codes are those of RFC 6455. The writer goroutine `pumpWrite` is the
-- event by which a subscriber takes a frame (Session/History).
pub mod Frames
pub mod Sizes
pub mod Connection
mod Tests
use httpssh.Base.{
  ℕ, Bool, true, false, not, ◌&&◌, ◌||◌, Option, none, some, List, [], ◌∷◌, ◌++◌, ◌==◌,
  if◌then◌else◌, length, Text, codes, str_eq, lookup, insert,
}
use httpssh.Errors.{Error, Result, ok, err, error_text}
use httpssh.Http.{Response, failed}
use httpssh.Protocol.{ServerFrame, ClientFrame, frame_in, frame_resize, frame_ping, pong, error}
use httpssh.Session.{Session, Pty, role_host, resize, write_input, subscribe, remove_subscriber}
use httpssh.Manager.{Manager, get}

-- What one frame comes to: the session, the frames written back, and the error that ends the loop.
pub record Handled : Type 0 where
  pub session : Session
  pub sent : List ServerFrame
  pub failure : Option Error

abbrev error_frames : Option Error → List ServerFrame
error_frames none = []
error_frames (some e) = error (error_text e) ∷ []

-- The `switch` of `pumpRead`.
unfoldable pub handle_frame : Pty → ℕ → Session → ClientFrame → Handled
unfolding write_input resize
handle_frame pty now s f =
    if str_eq f.t frame_in
    then (let (s', e) = write_input pty now s f.d in
        record { session = s'; sent = []; failure = e })
    else if str_eq f.t frame_resize
    then (let (s', e) = resize pty now s f.c f.r in
        record { session = s'; sent = error_frames e; failure = none })
    else if str_eq f.t frame_ping
    then record { session = s; sent = pong ∷ []; failure = none }
    else record { session = s; sent = []; failure = none }

-- Errors as `isFatalWS` tells them apart, those with text by their text.
pub data WsError : Type 0 where
  canceled deadline_exceeded : WsError
  close_error : ℕ → Text → WsError
  session_error : Error → WsError
  transport : Text → WsError

pub record ReadOutcome : Type 0 where
  pub session : Session
  pub sent : List ServerFrame
  pub error : WsError

-- `pumpRead` on the frames that arrive, each with its time; `last` is the error of the read after them.
unfoldable pub pump_read_ws : Pty → WsError → Session → List (ℕ × ClientFrame) → ReadOutcome
unfolding handle_frame
pump_read_ws pty last s [] = record { session = s; sent = []; error = last }
pump_read_ws pty last s ((now, f) ∷ fs) =
    let h : Handled = handle_frame pty now s f in
    elim h.failure [
      | some e ↦ record { session = h.session; sent = h.sent; error = session_error e }
      | none ↦
          let rest : ReadOutcome = pump_read_ws pty last h.session fs in
          record { session = rest.session; sent = h.sent ++ rest.sent; error = rest.error }
    ]

-- A nil error is `none`.
unfoldable pub is_fatal_ws : Option WsError → Bool
is_fatal_ws none = false
is_fatal_ws (some canceled) = false
is_fatal_ws (some deadline_exceeded) = false
is_fatal_ws (some (close_error code message)) = not (code == 1000) && not (code == 1001)
is_fatal_ws (some (session_error e)) = true
is_fatal_ws (some (transport message)) = true

abbrev ws_text : Option WsError → Text
ws_text none = []
ws_text (some canceled) = codes "context canceled"
ws_text (some deadline_exceeded) = codes "context deadline exceeded"
ws_text (some (close_error code message)) = message
ws_text (some (session_error e)) = error_text e
ws_text (some (transport message)) = message

abbrev status_normal_closure : ℕ
status_normal_closure = 1000

abbrev status_policy_violation : ℕ
status_policy_violation = 1008

abbrev status_internal_error : ℕ
status_internal_error = 1011

-- `write_err` is what the writer has left so far: nothing where it still runs.
unfoldable pub close_of : Option (Option WsError) → Option WsError → ℕ × Text
unfolding is_fatal_ws
close_of write_err read_err =
    if is_fatal_ws read_err then (status_internal_error, ws_text read_err) else elim write_err [
      | none ↦ (status_normal_closure, [])
      | some e ↦
          if is_fatal_ws e then (status_internal_error, ws_text e) else (status_normal_closure, [])
    ]

abbrev pub ws_subprotocol : Text
ws_subprotocol = codes "httpssh.v1"

-- What `Accept` answers: an error, or a connection with the subprotocol that it settled on.
pub data Upgrade : Type 0 where
  not_upgraded : Upgrade
  upgraded : Text → Upgrade

pub data Connected : Type 0 where
  no_session : Response Text → Connected
  no_upgrade : Connected
  closed_with : ℕ → Text → Connected
  -- The subscriber's place in the session.
  subscribed : ℕ → Connected

abbrev pub role_of : Text → Text
role_of query = if str_eq query role_host then role_host else []

pub connect_upgraded : Manager → Text → Session → Upgrade → Bool → Text → ℕ → Manager × Connected
unfolding subscribe
connect_upgraded m id s not_upgraded ended query now = (m, no_upgrade)
connect_upgraded m id s (upgraded protocol) ended query now =
    if not (str_eq protocol ws_subprotocol)
    then (m, closed_with status_policy_violation (codes "subprotocol must be " ++ ws_subprotocol))
    else (
      record m { by_id = insert id (subscribe s ended (role_of query) now) m.by_id },
      subscribed (length s.clients),
    )

pub connect_found :
    Manager → Text → Result Session → Upgrade → Bool → Text → ℕ → Manager × Connected
unfolding connect_upgraded
connect_found m id (err e) u ended query now =
    (m, no_session (failed 404 (codes "not_found") (error_text e)))
connect_found m id (ok s) u ended query now = connect_upgraded m id s u ended query now

-- `handleWebSocket` up to its loops; `query` is the role that the query names, `ended` says that the
-- request's context is done.
unfoldable pub connect : Manager → Text → Upgrade → Bool → Text → ℕ → Manager × Connected
unfolding connect_found
connect m id u ended query now = connect_found m id (get m id) u ended query now

-- The end of `handleWebSocket`: the loop on the frames, the close code, and `unsubscribe`.
unfoldable pub converse :
    Pty
    → WsError
    → Option (Option WsError)
    → Session
    → ℕ
    → List (ℕ × ClientFrame)
    → Session × (ℕ × Text)
unfolding pump_read_ws close_of remove_subscriber
converse pty last write_err s place fs =
    let o : ReadOutcome = pump_read_ws pty last s fs in
    (remove_subscriber o.session place, close_of write_err (some o.error))
