-- ===== src/Server/Routes.antt =====
-- relay/internal/server/server.go: requests to the API, behind the gate, as steps of the manager.
use httpssh.Base.{
  not, ◌&&◌, ◌++◌, ◌==◌, str_eq, str_eq_iff, arith, ◌≡◌, ◌≢◌, ◌⊎◌, inl, inr, refl, sym, ap, ◌∙◌,
  false, Bool-cases, if_cases, if◌then◌else◌, ℤ, Option, none, some, List, [], ◌∷◌, Text, codes,
}
use httpssh.Http.{Response, failed}
use httpssh.Manager.{Manager, Moment}
use httpssh.Manager.Steps.{
  Step, creates, kills_session, renames_session, on_session, apply_to, apply_step, run_steps,
}
use httpssh.Session.History.{Event, joins}
use httpssh.WebSocket.{role_of, not_upgraded, upgraded, Upgrade, ws_subprotocol}
use httpssh.WebSocket.Connection.{connect-apply_to, connect-joins}
use httpssh.Auth.{Credentials, bearer_from_request, evaluate}
use httpssh.Auth.Gate.{evaluate_iff, middleware_gate}
use httpssh.Server.{
  SocketRequest, Reply, no_body, bad_body, body, CreateRequest, zero_request, as_request,
  idle_timeout_of, create_with, ApiCall, get_health, get_sessions, post_sessions, get_session,
  patch_session, delete_session, get_io, get_file_roots, get_file_list, get_file_read,
  get_session_files, get_session_file, api_mux, serve, open_socket, handle_create_session,
  handle_rename_session, handle_kill_session,
}

-- The bearer is presented, and there is one.
abbrev pub HasAccess : Text → Credentials → Type 0
HasAccess lan_bearer r = (lan_bearer ≢ []) × (bearer_from_request r ≡ lan_bearer)

-- Without the bearer a request changes nothing and learns nothing; with it the answer is the handler's.
pub serve_gate :
    (lan_bearer : Text) (call : ApiCall) (m : Manager) (r : Credentials)
    → (HasAccess lan_bearer r → serve lan_bearer call m r ≡ api_mux m call)
      × (¬ HasAccess lan_bearer r
          → serve lan_bearer call m r
            ≡ (m, failed 401 (codes "unauthorized") (codes "missing or invalid credentials")))
unfolding serve
serve_gate lan_bearer call m r = middleware_gate lan_bearer (λ s _. api_mux s call) m r

-- Requests in the order in which the handlers run.
unfoldable pub serve_all : Text → Manager → List (ApiCall × Credentials) → Manager
unfolding serve
serve_all lan_bearer m [] = m
serve_all lan_bearer m ((call, r) ∷ cs) = serve_all lan_bearer (serve lan_bearer call m r).0 cs

-- The requests that present the bearer.
unfoldable pub with_access : Text → List (ApiCall × Credentials) → List (ApiCall × Credentials)
unfolding evaluate
with_access lan_bearer [] = []
with_access lan_bearer ((call, r) ∷ cs) =
    let rest = with_access lan_bearer cs in
    if (evaluate lan_bearer r).0 then (call, r) ∷ rest else rest

pub has_no_access :
    (lan_bearer : Text) (r : Credentials)
    → (evaluate lan_bearer r).0 ≡ false
    → ¬ HasAccess lan_bearer r
has_no_access lan_bearer r e h = cc ((evaluate_iff lan_bearer r).1 h)

-- The sessions after any requests are those after the requests with the bearer alone: the others leave
-- no trace, wherever they come in between.
pub serve_all-with_access :
    (lan_bearer : Text) (cs : List (ApiCall × Credentials)) (m : Manager)
    → serve_all lan_bearer m (with_access lan_bearer cs) ≡ serve_all lan_bearer m cs
unfolding serve_all with_access
serve_all-with_access lan_bearer [] m = refl
serve_all-with_access lan_bearer ((call, r) ∷ cs) m =
    let rest = serve_all-with_access lan_bearer cs in
    if_cases
      (λ ds. serve_all lan_bearer m ds ≡ serve_all lan_bearer (serve lan_bearer call m r).0 cs)
      (evaluate lan_bearer r).0 _ _ (λ _. rest (serve lan_bearer call m r).0)
      (λ e.
        rest m
        ∙ ap (λ p. serve_all lan_bearer p.0 cs)
            (sym ((serve_gate lan_bearer call m r).1 (has_no_access lan_bearer r e))))

-- A handler runs as at most one step of the manager.
abbrev pub IsStep : Manager → Manager → Type 0
IsStep m m' = (m' ≡ m) ⊎ ((x : Step) × (m' ≡ apply_step m x))

create_with-IsStep :
    (at : Moment) (m : Manager) (req : CreateRequest) (t : Option ℤ)
    → IsStep m (create_with at m req t).0
unfolding create_with
create_with-IsStep at m req none = inl refl
create_with-IsStep at m req (some t) =
    inr (creates at (as_request req t), unfold apply_step in refl)

pub api_mux-IsStep : (m : Manager) (call : ApiCall) → IsStep m (api_mux m call).0
unfolding api_mux open_socket handle_create_session handle_rename_session handle_kill_session
api_mux-IsStep m (get_health v a b) = inl refl
api_mux-IsStep m get_sessions = inl refl
api_mux-IsStep m (post_sessions at no_body) =
    create_with-IsStep at m zero_request (idle_timeout_of none)
api_mux-IsStep m (post_sessions at (bad_body e)) = inl refl
api_mux-IsStep m (post_sessions at (body req)) =
    create_with-IsStep at m req (idle_timeout_of req.idle_timeout_seconds)
api_mux-IsStep m (get_session id) = inl refl
api_mux-IsStep m (patch_session id no_body) = inl refl
api_mux-IsStep m (patch_session id (bad_body e)) = inl refl
api_mux-IsStep m (patch_session id (body title)) =
    inr (renames_session id title, unfold apply_step in refl)
api_mux-IsStep m (get_io w id) = elim (connect-apply_to m id w.upgrade w.ended w.role w.now) [
  | inl h ↦ inl h
  | inr h ↦ inr (on_session id (joins w.ended (role_of w.role) w.now), unfold apply_step in h)
]
api_mux-IsStep m (get_file_roots b) = inl refl
api_mux-IsStep m (get_file_list b root path) = inl refl
api_mux-IsStep m (get_file_read b root path) = inl refl
api_mux-IsStep m (get_session_files b id path) = inl refl
api_mux-IsStep m (get_session_file b id path) = inl refl
api_mux-IsStep m (delete_session pty id) = inr (kills_session pty id, unfold apply_step in refl)

abbrev creates_steps : Moment → CreateRequest → Option ℤ → List Step
creates_steps at req none = []
creates_steps at req (some t) =
    creates at (record {
      shell = if str_eq req.shell [] then codes "pwsh" else req.shell;
      cols = if req.cols == 0 then 80 else req.cols;
      rows = if req.rows == 0 then 24 else req.rows;
      title = req.title;
      idle_timeout = t;
    })
    ∷ []

-- The steps of the manager that a request stands for: `POST` creates, `PATCH` renames, `DELETE` kills, the
-- upgrade of a connection joins, and every other request is none.
abbrev pub steps_of : ApiCall → List Step
steps_of (post_sessions at no_body) = creates_steps at zero_request (idle_timeout_of none)
steps_of (post_sessions at (body req)) =
    creates_steps at req (idle_timeout_of req.idle_timeout_seconds)
steps_of (patch_session id (body title)) = renames_session id title ∷ []
steps_of (delete_session pty id) = kills_session pty id ∷ []
steps_of (get_io w id) = elim w.upgrade [
  | not_upgraded ↦ []
  | upgraded protocol ↦
      if str_eq protocol (codes "httpssh.v1")
      then on_session id
          (joins w.ended (if str_eq w.role (codes "host") then codes "host" else []) w.now)
        ∷ []
      else []
]
steps_of _ = []

-- Those of a request if it presents the bearer.
abbrev pub allowed_steps : Text → ApiCall → Credentials → List Step
allowed_steps lan_bearer call r =
    if not (str_eq lan_bearer []) && str_eq (bearer_from_request r) lan_bearer
    then steps_of call
    else []

abbrev pub all_steps_of : Text → List (ApiCall × Credentials) → List Step
all_steps_of lan_bearer [] = []
all_steps_of lan_bearer ((call, r) ∷ cs) =
    allowed_steps lan_bearer call r ++ all_steps_of lan_bearer cs

create_with-run_steps :
    (at : Moment) (m : Manager) (req : CreateRequest) (t : Option ℤ)
    → (create_with at m req t).0 ≡ run_steps m (creates_steps at req t)
unfolding create_with run_steps apply_step
create_with-run_steps at m req none = refl
create_with-run_steps at m req (some t) = refl

open_socket-run_steps :
    (m : Manager) (w : SocketRequest) (id : Text)
    → (open_socket w m id).0 ≡ run_steps m (steps_of (get_io w id))
unfolding open_socket run_steps apply_step
open_socket-run_steps m w id =
    connect-joins m id w.upgrade w.ended w.role w.now ∙ by_upgrade w.upgrade
  where
    e : Event
    e = joins w.ended (role_of w.role) w.now

    by_upgrade :
        (u : Upgrade)
        → elim u [
          | not_upgraded ↦ m
          | upgraded protocol ↦ if str_eq protocol ws_subprotocol then apply_to m id e else m
        ]
          ≡ run_steps m (elim u [
            | not_upgraded ↦ []
            | upgraded protocol ↦
                if str_eq protocol (codes "httpssh.v1") then on_session id e ∷ [] else []
          ])
    by_upgrade not_upgraded = refl
    by_upgrade (upgraded protocol) = elim (Bool-cases (str_eq protocol ws_subprotocol)) [
      | inl k ↦ rw k refl
      | inr k ↦ rw k refl
    ]

api_mux-run_steps :
    (m : Manager) (call : ApiCall) → (api_mux m call).0 ≡ run_steps m (steps_of call)
unfolding api_mux handle_create_session handle_rename_session handle_kill_session run_steps
    apply_step
api_mux-run_steps m (get_health v a b) = refl
api_mux-run_steps m get_sessions = refl
api_mux-run_steps m (post_sessions at no_body) =
    create_with-run_steps at m zero_request (idle_timeout_of none)
api_mux-run_steps m (post_sessions at (bad_body e)) = refl
api_mux-run_steps m (post_sessions at (body req)) =
    create_with-run_steps at m req (idle_timeout_of req.idle_timeout_seconds)
api_mux-run_steps m (get_session id) = refl
api_mux-run_steps m (patch_session id no_body) = refl
api_mux-run_steps m (patch_session id (bad_body e)) = refl
api_mux-run_steps m (patch_session id (body title)) = refl
api_mux-run_steps m (get_io w id) = open_socket-run_steps m w id
api_mux-run_steps m (get_file_roots b) = refl
api_mux-run_steps m (get_file_list b root path) = refl
api_mux-run_steps m (get_file_read b root path) = refl
api_mux-run_steps m (get_session_files b id path) = refl
api_mux-run_steps m (get_session_file b id path) = refl
api_mux-run_steps m (delete_session pty id) = refl

run_steps-append :
    (m : Manager) (xs ys : List Step) → run_steps m (xs ++ ys) ≡ run_steps (run_steps m xs) ys
unfolding run_steps
run_steps-append m [] ys = refl
run_steps-append m (x ∷ xs) ys = run_steps-append (apply_step m x) xs ys

serve-run_steps :
    (lan_bearer : Text) (call : ApiCall) (m : Manager) (r : Credentials)
    → (serve lan_bearer call m r).0 ≡ run_steps m (allowed_steps lan_bearer call r)
serve-run_steps lan_bearer call m r =
    let gate = serve_gate lan_bearer call m r in
    let right = str_eq_iff (bearer_from_request r) lan_bearer in
    let none_set = str_eq_iff lan_bearer [] in
    if_cases (λ xs. (serve lan_bearer call m r).0 ≡ run_steps m xs)
      (not (str_eq lan_bearer []) && str_eq (bearer_from_request r) lan_bearer) _ _
      (λ e.
        let access : HasAccess lan_bearer r =
          ((λ z. ground (arith, none_set.1 z, e)), right.0 (ground (arith, e))) in
        ap (λ (p : Manager × Response Reply). p.0) (gate.0 access) ∙ api_mux-run_steps m call)
      (λ e.
        ap (λ (p : Manager × Response Reply). p.0)
          (gate.1 (λ (ne, same). ground (arith, none_set.0, ne, right.1 same, e)))
        ∙ unfold run_steps in refl)

-- The API refines the manager: after any requests the sessions are those after the steps of the manager
-- that the requests with the bearer stand for, in their order, and after no others: `POST` creates,
-- `PATCH` renames and `DELETE` kills the session that it names, and an upgrade to `httpssh.v1` joins it.
pub serve_all-run_steps :
    (lan_bearer : Text) (cs : List (ApiCall × Credentials)) (m : Manager)
    → serve_all lan_bearer m cs ≡ run_steps m (all_steps_of lan_bearer cs)
unfolding serve_all run_steps
serve_all-run_steps lan_bearer [] m = refl
serve_all-run_steps lan_bearer ((call, r) ∷ cs) m =
    serve_all-run_steps lan_bearer cs (serve lan_bearer call m r).0
    ∙ ap (λ n. run_steps n (all_steps_of lan_bearer cs)) (serve-run_steps lan_bearer call m r)
    ∙ sym (run_steps-append m (allowed_steps lan_bearer call r) (all_steps_of lan_bearer cs))
