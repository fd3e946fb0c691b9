-- ===== src/Server.antt =====
-- relay/internal/server/server.go: the routes of the API and their handlers.
--
-- A handler takes the manager and gives it back beside the response. A request is what the decoder of
-- its body makes of it; `shells` that the manager was given and the pseudo-console are arguments as in the
-- manager. `/web/` is not modelled.
pub mod Sessions
pub mod Routes
pub mod Shells
pub mod Files
mod Tests
mod Data
pub use Data.*
use httpssh.Base.{
  ℕ, ◌-◌, ◌*◌, ◌/◌, ◌%◌, Bool, true, false, not, ◌||◌, Option, none, some, List, [], ◌∷◌, ◌++◌, ℤ,
  pos, negsuc, to_nat, is_negative, ltb, ◌==◌, if◌then◌else◌, Text, codes, str_eq, has_prefix,
}
use httpssh.Errors.{
  Error, Result, ok, err, invalid_dimensions, invalid_shell, is_invalid_dimensions,
  is_invalid_shell, error_text,
}
use httpssh.Http.{Response, replied, failed, bare}
use httpssh.Session.{Session, SessionInfo, Pty, info}
use httpssh.Manager.{Manager, Moment, Request, create, get, list, rename, kill_session}
use httpssh.Auth.{Credentials, middleware}
use httpssh.WebSocket.{Connected, no_session, no_upgrade, closed_with, subscribed, connect}
use httpssh.Server.Files.{
  handle_file_roots, handle_file_list, handle_file_read, handle_session_file_list,
  handle_session_file_read,
}

abbrev pub max_idle_timeout_seconds : ℕ
max_idle_timeout_seconds = 366 * 24 * 60 * 60

-- A number that is not negative as an `int64`.
abbrev pub int64 : ℕ → ℤ
int64 n =
    let r = n % 18_446_744_073_709_551_616 in
    if ltb r 9_223_372_036_854_775_808 then pos r else negsuc (18_446_744_073_709_551_615 - r)

abbrev pub or_number : ℕ → ℕ → ℕ
or_number x d = if x == 0 then d else x

abbrev pub or_text : Text → Text → Text
or_text s d = if str_eq s [] then d else s

-- `secs < 0 || secs > maxIdleTimeoutSeconds`
abbrev pub out_of_range : ℤ → Bool
out_of_range (pos n) = ltb max_idle_timeout_seconds n
out_of_range (negsuc n) = true

-- The timeout in nanoseconds, `-1` where the client names none; no timeout where it is out of range.
unfoldable pub idle_timeout_of : Option ℤ → Option ℤ
idle_timeout_of none = some (negsuc 0)
idle_timeout_of (some secs) =
    if out_of_range secs then none else some (int64 (to_nat secs * 1_000_000_000))

unfoldable pub create_error : Error → Response Reply
create_error e =
    if is_invalid_dimensions e
    then failed 400 (codes "invalid_dimensions") (error_text e)
    else if is_invalid_shell e
    then failed 400 (codes "invalid_shell") (error_text e)
    else failed 503 (codes "spawn_failed") (error_text e)

unfoldable pub create_answer : Result Session → Response Reply
unfolding create_error
create_answer (ok s) = replied 201 (created_reply (codes "/api/sessions/" ++ s.id) (info s))
create_answer (err e) = create_error e

-- A handler that changes the manager, and then answers with what the manager returned.
abbrev pub answered {ℓ} :
    {A : Type ℓ} → (A → Response Reply) → Manager × A → Manager × Response Reply
answered answer (m, a) = (m, answer a)

abbrev pub as_request : CreateRequest → ℤ → Request
as_request req t = record {
  shell = or_text req.shell (codes "pwsh");
  cols = or_number req.cols 80;
  rows = or_number req.rows 24;
  title = req.title;
  idle_timeout = t;
}

unfoldable pub create_with : Moment → Manager → CreateRequest → Option ℤ → Manager × Response Reply
unfolding create_answer
create_with at m req none = (
  m,
  failed 400 (codes "invalid_idle_timeout")
      (codes "idleTimeoutSeconds must be between 0 and 31622400"),
)
create_with at m req (some t) = answered create_answer (create at m (as_request req t))

abbrev pub zero_request : CreateRequest
zero_request = record { shell = []; cols = 0; rows = 0; title = []; idle_timeout_seconds = none }

unfoldable pub handle_create_session :
    Moment → Manager → Body CreateRequest → Manager × Response Reply
unfolding create_with idle_timeout_of
handle_create_session at m (bad_body e) = (m, failed 400 (codes "invalid_body") e)
handle_create_session at m no_body = create_with at m zero_request (idle_timeout_of none)
handle_create_session at m (body req) =
    create_with at m req (idle_timeout_of req.idle_timeout_seconds)

abbrev pub not_found_reply : Error → Response Reply
not_found_reply e = failed 404 (codes "not_found") (error_text e)

unfoldable pub get_answer : Result Session → Response Reply
get_answer (ok s) = replied 200 (session_reply (info s))
get_answer (err e) = not_found_reply e

unfoldable pub handle_get_session : Manager → Text → Response Reply
unfolding get_answer
handle_get_session m id = get_answer (get m id)

unfoldable pub handle_list_sessions : Manager → Response Reply
handle_list_sessions m = replied 200 (session_list (list m))

pub rename_answer : Result SessionInfo → Response Reply
rename_answer (ok i) = replied 200 (session_reply i)
rename_answer (err e) = not_found_reply e

-- An empty body is an error here.
unfoldable pub handle_rename_session : Manager → Text → Body Text → Manager × Response Reply
unfolding rename_answer
handle_rename_session m id no_body = (m, failed 400 (codes "invalid_body") (codes "EOF"))
handle_rename_session m id (bad_body e) = (m, failed 400 (codes "invalid_body") e)
handle_rename_session m id (body title) = answered rename_answer (rename m id title)

pub kill_answer : Option Error → Response Reply
kill_answer none = bare 204
kill_answer (some e) = not_found_reply e

unfoldable pub handle_kill_session : Pty → Manager → Text → Manager × Response Reply
unfolding kill_answer
handle_kill_session pty m id = answered kill_answer (kill_session pty m id)

-- `handleHealth`: the whole seconds between two times in nanoseconds.
unfoldable pub handle_health : Text → ℕ → ℕ → Response Reply
handle_health version started_at now =
    replied 200 (health_reply version ((now - started_at) / 1_000_000_000))

-- A connection is a response of its own; an answer of `Accept` that refuses has no body here.
abbrev pub no_session_reply : Response Text → Response Reply
no_session_reply (replied n message) = replied n (plain_text message)
no_session_reply (failed n code message) = failed n code message
no_session_reply (bare n) = bare n

abbrev pub socket_answer : ℕ → Connected → Response Reply
socket_answer refusal (no_session r) = no_session_reply r
socket_answer refusal no_upgrade = bare refusal
socket_answer refusal (closed_with code reason) =
    replied 101 (socket_reply (closed_with code reason))
socket_answer refusal (subscribed place) = replied 101 (socket_reply (subscribed place))

unfoldable pub open_socket : SocketRequest → Manager → Text → Manager × Response Reply
unfolding connect
open_socket w m id =
    answered (socket_answer w.refusal) (connect m id w.upgrade w.ended w.role w.now)

-- The routes of the API, with what each asks of the host.
pub data ApiCall : Type 0 where
  get_health : Text → ℕ → ℕ → ApiCall
  get_sessions : ApiCall
  post_sessions : Moment → Body CreateRequest → ApiCall
  get_session : Text → ApiCall
  patch_session : Text → Body Text → ApiCall
  delete_session : Pty → Text → ApiCall
  get_io : SocketRequest → Text → ApiCall
  get_file_roots : FileBrowser → ApiCall
  get_file_list : FileBrowser → Text → Text → ApiCall
  get_file_read : FileBrowser → Text → Text → ApiCall
  get_session_files : FileBrowser → Text → Text → ApiCall
  get_session_file : FileBrowser → Text → Text → ApiCall

unfoldable pub api_mux : Manager → ApiCall → Manager × Response Reply
unfolding handle_create_session handle_get_session handle_list_sessions handle_rename_session
    handle_kill_session handle_health handle_file_roots handle_file_list handle_file_read
    handle_session_file_list handle_session_file_read open_socket
api_mux m (get_health version started_at now) = (m, handle_health version started_at now)
api_mux m get_sessions = (m, handle_list_sessions m)
api_mux m (post_sessions at b) = handle_create_session at m b
api_mux m (get_session id) = (m, handle_get_session m id)
api_mux m (patch_session id b) = handle_rename_session m id b
api_mux m (delete_session pty id) = handle_kill_session pty m id
api_mux m (get_io w id) = open_socket w m id
api_mux m (get_file_roots b) = (m, handle_file_roots b)
api_mux m (get_file_list b root path) = (m, handle_file_list b root path)
api_mux m (get_file_read b root path) = (m, handle_file_read b root path)
api_mux m (get_session_files b id path) = (m, handle_session_file_list b m id path)
api_mux m (get_session_file b id path) = (m, handle_session_file_read b m id path)

-- The half of `Handler` under `/api/`: the gate in front of the routes.
unfoldable pub serve : Text → ApiCall → Manager → Credentials → Manager × Response Reply
unfolding middleware api_mux
serve lan_bearer call = middleware lan_bearer (λ m r. api_mux m call)

-- `http.Error` and `http.NotFound` send a text, `http.Redirect` a place.
pub data RootAnswer : Type 0 where
  plain_error : ℕ → Text → RootAnswer
  redirect : ℕ → Text → RootAnswer

-- `handleRoot`
unfoldable pub handle_root : Text → Text → RootAnswer
handle_root method path =
    if not (str_eq method (codes "GET"))
    then plain_error 405 (codes "method not allowed")
    else if str_eq path (codes "/")
    then redirect 302 (codes "/web/")
    else plain_error 404 (codes "404 page not found")
