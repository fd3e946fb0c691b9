-- ===== src/Handler.antt =====
-- relay/internal/server/server.go: `Handler`, from the method and the path of a request to its handler.
--
-- `http.ServeMux` is modelled as far as the patterns of the relay use it: it redirects a path that is not
-- clean to the clean one (`clean_path` is its `cleanPath`) and a tree without its slash to the tree, a
-- pattern of `GET` also takes `HEAD`, and `{id}` is one segment that is not empty.
pub mod Access
pub mod Routing
mod Tests
use httpssh.Base.{
  ℕ, Bool, true, false, not, ◌&&◌, ◌||◌, Option, none, some, List, [], ◌∷◌, ◌++◌, ◌==◌,
  if◌then◌else◌, Text, codes, str_eq, has_prefix, drop,
}
use httpssh.Http.{Response, replied}
use httpssh.Session.{Pty}
use httpssh.Manager.{Manager, Moment}
use httpssh.Auth.{Credentials, middleware}
use httpssh.Server.{
  Body, CreateRequest, Reply, plain_text, FileBrowser, SocketRequest, ApiCall, get_health,
  get_sessions, post_sessions, get_session, patch_session, delete_session, get_io, get_file_roots,
  get_file_list, get_file_read, get_session_files, get_session_file, api_mux, RootAnswer, redirect,
  handle_root,
}

-- `query` is `r.URL.Query().Get`; a body is what the decoder of the handler makes of it.
pub record HttpRequest : Type 0 where
  pub method : Text
  pub path : Text
  pub authorization : Text
  pub query : Text → Text
  pub create_body : Body CreateRequest
  pub rename_body : Body Text

-- What the handlers ask of the host.
pub record Host : Type 0 where
  pub moment : Moment
  pub pty : Pty
  pub socket : SocketRequest
  pub browser : FileBrowser
  pub version : Text
  pub started_at : ℕ
  pub now : ℕ

abbrev pub slash : ℕ
slash = b'/'

abbrev pub put_first : ℕ → List Text → List Text
put_first x [] = (x ∷ []) ∷ []
put_first x (s ∷ ss) = (x ∷ s) ∷ ss

-- The segments of a path; the one before the first slash is empty.
unfoldable pub segments : Text → List Text
segments [] = [] ∷ []
segments (x ∷ s) = let rest = segments s in if x == slash then [] ∷ rest else put_first x rest

-- What the patterns name.
pub data Resource : Type 0 where
  health sessions roots files_list files_read : Resource
  session session_io session_list session_read : Text → Resource

-- The pattern that the segments behind `/api` match.
unfoldable pub resource_of : List Text → Option Resource
resource_of (a ∷ []) =
    if str_eq a (codes "health")
    then some health
    else if str_eq a (codes "sessions")
    then some sessions
    else none
resource_of (a ∷ b ∷ []) =
    if str_eq a (codes "sessions") && not (str_eq b [])
    then some (session b)
    else if str_eq a (codes "files") && str_eq b (codes "roots")
    then some roots
    else if str_eq a (codes "files") && str_eq b (codes "list")
    then some files_list
    else if str_eq a (codes "files") && str_eq b (codes "read")
    then some files_read
    else none
resource_of (a ∷ b ∷ c ∷ []) =
    if str_eq a (codes "sessions") && not (str_eq b []) && str_eq c (codes "io")
    then some (session_io b)
    else none
resource_of (a ∷ b ∷ c ∷ d ∷ []) =
    if not (str_eq a (codes "sessions") && not (str_eq b []) && str_eq c (codes "files"))
    then none
    else if str_eq d (codes "list")
    then some (session_list b)
    else if str_eq d (codes "read")
    then some (session_read b)
    else none
resource_of _ = none

abbrev pub is_get : Text → Bool
is_get method = str_eq method (codes "GET") || str_eq method (codes "HEAD")

abbrev pub on_get : HttpRequest → ApiCall → Option ApiCall
on_get r call = if is_get r.method then some call else none

-- The handler of a resource by the method, if the patterns have one.
unfoldable pub call_at : Host → HttpRequest → Resource → Option ApiCall
call_at h r health = on_get r (get_health h.version h.started_at h.now)
call_at h r sessions =
    if is_get r.method
    then some get_sessions
    else if str_eq r.method (codes "POST")
    then some (post_sessions h.moment r.create_body)
    else none
call_at h r (session id) =
    if is_get r.method
    then some (get_session id)
    else if str_eq r.method (codes "PATCH")
    then some (patch_session id r.rename_body)
    else if str_eq r.method (codes "DELETE")
    then some (delete_session h.pty id)
    else none
call_at h r (session_io id) =
    on_get r (get_io (record h.socket { role = r.query (codes "role") }) id)
call_at h r roots = on_get r (get_file_roots h.browser)
call_at h r files_list =
    on_get r (get_file_list h.browser (r.query (codes "root")) (r.query (codes "path")))
call_at h r files_read =
    on_get r (get_file_read h.browser (r.query (codes "root")) (r.query (codes "path")))
call_at h r (session_list id) = on_get r (get_session_files h.browser id (r.query (codes "path")))
call_at h r (session_read id) = on_get r (get_session_file h.browser id (r.query (codes "path")))

pub run_call : Manager → Option ApiCall → Manager × Response Reply
unfolding api_mux
run_call m none = (m, replied 405 (plain_text (codes "Method Not Allowed")))
run_call m (some call) = api_mux m call

pub run_resource : Host → Manager → HttpRequest → Option Resource → Manager × Response Reply
unfolding call_at run_call
run_resource h m r none = (m, replied 404 (plain_text (codes "404 page not found")))
run_resource h m r (some x) = run_call m (call_at h r x)

-- `apiMux`
unfoldable pub serve_api : Host → Manager → HttpRequest → Manager × Response Reply
unfolding segments resource_of run_resource
serve_api h m r = run_resource h m r (resource_of (drop 2 (segments r.path)))

abbrev pub credentials_of : HttpRequest → Credentials
credentials_of r = record { authorization = r.authorization; token = r.query (codes "token") }

-- A file of the web client is served by the standard library.
pub data Answer : Type 0 where
  api_answer : Response Reply → Answer
  web_file : Text → Answer
  root_answer : RootAnswer → Answer

abbrev pub api_prefix : Text
api_prefix = codes "/api/"

abbrev pub web_prefix : Text
web_prefix = codes "/web/"

abbrev pub as_answer : Manager × Response Reply → Manager × Answer
as_answer (m, a) = (m, api_answer a)

unfoldable pub handler : (Text → Text) → Text → Host → Manager → HttpRequest → Manager × Answer
unfolding middleware serve_api handle_root has_prefix str_eq
handler clean_path lan_bearer h m r =
    let path = clean_path r.path in
    if str_eq (path ++ codes "/") api_prefix || str_eq (path ++ codes "/") web_prefix
    then (m, root_answer (redirect 301 (path ++ codes "/")))
    else if not (str_eq path r.path)
    then (m, root_answer (redirect 301 path))
    else if has_prefix r.path api_prefix
    then as_answer (middleware lan_bearer (λ n c. serve_api h n r) m (credentials_of r))
    else if has_prefix r.path web_prefix
    then (m, web_file r.path)
    else (m, root_answer (handle_root r.method r.path))
