-- ===== src/Attach/Tests.antt =====
-- relay/cmd/httpssh-relay/attach.go: a client beside a relay with one session.
use httpssh.Base.{
  none, some, Option, ℕ, ◌≡◌, ◌↔◌, refl, arith, true, false, some, List, [], ◌∷◌, ◌++◌, map, concat,
  negsuc, length, get_elem?, if◌then◌else◌, Text, codes, str_eq, trim_right, space_width,
  last_space_width, insert,
}
use httpssh.Errors.{ok}
use httpssh.Protocol.{ClientFrame}
use httpssh.Protocol.Wire.{sent_frame, sent_input}
use httpssh.Protocol.Wire.Exact.{AllValid}
use httpssh.Ring.{snapshot}
use httpssh.Session.{Session, Subscriber, info, subscribe}
use httpssh.Session.History.{Event, publishes, takes, run, chunks, stream}
use httpssh.Manager.{Manager, create, get, list, new_manager}
use httpssh.Manager.Steps.{creates, run_steps}
use httpssh.Manager.System.{new_manager-IsGood}
use httpssh.Auth.Gate.{IsToken}
use httpssh.Server.{open_socket}
use httpssh.WebSocket.{canceled, pump_read_ws}
use httpssh.WebSocket.Frames.{typed}
use httpssh.Handler.{as_answer, handler}
use httpssh.Attach.{Url, UrlLibrary, AttachOpts, done, ws_query, build_attach_ws_url}
use httpssh.Attach.Choice.{line, resolve_session_id}
use httpssh.Attach.Relay.{relay_net, Reaches}
use httpssh.Attach.Joining.{resolve_session_id-IsThere}
use httpssh.Attach.Socket.{arriving_socket, handler-build_attach_ws_url}
use httpssh.Attach.Terminal.{
  resize_frame, first_frames, input_frame, ping_frame, Tick, ping_tick, show_frames, stdin_frames,
  tick_frames,
}
use httpssh.Attach.Resizing.{watch_resize}
use httpssh.Attach.Resizing.Followed.{watch_resize-last_fitting}
use httpssh.WebSocket.Sizes.{size_of}
use httpssh.Attach.Screen.{
  Weave, nothing_left, from_first, from_second, show_frames-subscribe, pump_read_ws-stdin_frames,
}
use httpssh.Fixtures.{
  ready_pty, first_ready, session_a, options, spawn_nothing, moment, request, lan_bearer,
  relay_host,
}

abbrev base_url : Url
base_url = record { scheme = codes "http"; host = codes "pc:18822"; path = []; raw_query = [] }

abbrev encoded : Text
encoded = codes "role=host&token=0123456789abcdef"

abbrev url_library : UrlLibrary
url_library = record {
  parse = λ s. some base_url;
  string = λ u. u.host ++ u.path;
  query = λ s. if str_eq s [] then [] else ws_query true lan_bearer [];
  encode = λ q. encoded;
}

abbrev opts : AttachOpts
opts = record {
  listen_url = codes "http://pc:18822";
  bearer = lan_bearer;
  log_level = [];
  session_id = [];
  make_new = false;
  list_only = false;
  shell_name = [];
  title_hint = [];
}

abbrev as_it_is : Text → Text
as_it_is path = path

lan_bearer-IsToken : IsToken lan_bearer
lan_bearer-IsToken = record {
  ne_nil = λ e. cc;
  first_no_space = unfold space_width in refl;
  last_no_space = unfold last_space_width in refl;
}

opts-Reaches : Reaches url_library as_it_is lan_bearer opts
opts-Reaches = record {
  base = base_url;
  parsed = refl;
  no_path = unfold trim_right in refl;
  same_bearer = refl;
  token = lan_bearer-IsToken;
  clean_sessions = refl;
  one_segment = tt;
  clean_session = λ n. refl;
}

-- A relay with the session `b2`, which is picked from the menu.
abbrev manager_b : Manager
manager_b = run_steps (new_manager spawn_nothing options) (creates moment request ∷ [])

picks_b :
    resolve_session_id url_library
      (relay_net url_library as_it_is lan_bearer relay_host)
      opts
      (80, 24)
      (line (codes "1\n"))
      manager_b
    ≡ (manager_b, done (codes "b2"))
unfolding resolve_session_id relay_net list run_steps create new_manager insert info
picks_b = refl

resolve_session_id-IsThere_example : (s : Session) × (get manager_b (codes "b2") ≡ ok s)
resolve_session_id-IsThere_example =
    resolve_session_id-IsThere url_library as_it_is lan_bearer relay_host opts opts-Reaches (80, 24)
      (line (codes "1\n")) manager_b manager_b (codes "b2")
      (new_manager-IsGood spawn_nothing options (creates moment request ∷ [])) picks_b

abbrev socket_url : Url
socket_url = record {
  scheme = codes "ws";
  host = codes "pc:18822";
  path = codes "/api/sessions/b2/io";
  raw_query = encoded;
}

handler-build_attach_ws_url_example :
    handler as_it_is lan_bearer relay_host manager_b (arriving_socket url_library socket_url)
    ≡ as_answer
        (open_socket (record relay_host.socket { role = codes "host" }) manager_b (codes "b2"))
unfolding insert str_eq
handler-build_attach_ws_url_example =
    handler-build_attach_ws_url url_library as_it_is lan_bearer relay_host manager_b base_url
      socket_url (codes "b2") (unfold build_attach_ws_url in refl) (λ name. refl)
      (unfold trim_right in refl) (λ e. cc) ((λ e. omega (arith, e)), ((λ e. omega (arith, e)), tt))
      refl

-- The two bytes of one character, cut between two reads.
abbrev cut : List Event
cut =
    publishes first_ready (0xc3 ∷ []) [] 60 ∷ takes 0 ∷ publishes first_ready (0xa9 ∷ []) [] 61 ∷ []

show_frames-subscribe_example :
    (c : Subscriber) × (get_elem?
        (run (subscribe session_a false [] 50) cut).clients
        (length session_a.clients)
      ≡ some c)
    × (c.listed ≡ true
        → let screen = show_frames (negsuc 0) (map sent_frame (stream c)) in
          ((screen.output ≡ snapshot session_a.scrollback ++ concat (chunks cut))
            ↔ AllValid (snapshot session_a.scrollback ∷ chunks cut))
          × (screen.exit_code ≡ negsuc 0))
show_frames-subscribe_example =
    show_frames-subscribe session_a false [] 50 cut refl refl ((λ h. h), ((λ h. h), ((λ h. h), tt)))

abbrev reads : List Text
reads = codes "ls" ∷ codes "\n" ∷ []

abbrev ticks : List Tick
ticks = ping_tick ∷ []

-- The ping comes between the two reads.
abbrev frames : List (ℕ × ClientFrame)
frames =
    (60, sent_input (input_frame (codes "ls")))
    ∷ (61, sent_input ping_frame)
    ∷ (62, sent_input (input_frame (codes "\n")))
    ∷ []

frames-Weave :
    Weave (map sent_input (stdin_frames reads)) (map sent_input (tick_frames ticks)) frames
unfolding stdin_frames tick_frames
frames-Weave = from_first 60 _ (from_second 61 _ (from_first 62 _ nothing_left))

pump_read_ws-stdin_frames_example :
    ((pump_read_ws ready_pty canceled session_a frames).error ≡ canceled)
    × ((texts : List Text) × (typed
            (pump_read_ws ready_pty canceled session_a frames).session.pty_calls
          ≡ typed session_a.pty_calls ++ texts)
        × ((concat texts ≡ concat reads) ↔ AllValid reads))
pump_read_ws-stdin_frames_example =
    pump_read_ws-stdin_frames ready_pty canceled session_a reads ticks frames refl (λ p. refl)
      frames-Weave

-- The window is made wider, cannot be asked, and is then wider than a session can be.
abbrev answers : List (Option (ℕ × ℕ))
answers = some (100, 30) ∷ none ∷ some (100, 30) ∷ some (900, 30) ∷ []

abbrev sized_frames : List (ℕ × ClientFrame)
sized_frames =
    (60, sent_input (resize_frame 100 30))
    ∷ (61, sent_input (input_frame (codes "ls")))
    ∷ (62, sent_input (resize_frame 900 30))
    ∷ (63, sent_input (input_frame (codes "\n")))
    ∷ []

sized_frames-Weave :
    Weave
      (map sent_input (stdin_frames reads))
      (map sent_input (tick_frames (watch_resize (some (90, 24)) answers)))
      sized_frames
unfolding stdin_frames tick_frames watch_resize
sized_frames-Weave =
    from_second 60 _ (from_first 61 _ (from_second 62 _ (from_first 63 _ nothing_left)))

watch_resize-last_fitting_example :
    size_of
      (pump_read_ws ready_pty canceled session_a
        (map (λ f. (50, sent_input f)) (first_frames 90 24) ++ sized_frames)).session
    ≡ (100, 30)
watch_resize-last_fitting_example =
    watch_resize-last_fitting ready_pty canceled session_a 50 (some (90, 24)) answers reads
      sized_frames refl (λ p. refl) (λ c r. refl) sized_frames-Weave
