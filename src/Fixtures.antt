-- ===== src/Fixtures.antt =====
-- Concrete sessions, subscribers and pseudo-consoles for the tests.
use httpssh.Base.{
  ℕ, Bool, true, false, Option, none, some, [], ◌∷◌, ◌++◌, pos, if◌then◌else◌, Text, codes, str_eq,
}
use httpssh.Shell.{Host}
use httpssh.Errors.{other}
use httpssh.Protocol.{replay}
use httpssh.Ring.{new_ring_buffer}
use httpssh.Cwd.{new_cwd_tracker}
use httpssh.Session.{Session, Subscriber, Pty}
use httpssh.FileApi.{FileSystem, found, Service}
use httpssh.Server.{FileBrowser}
use httpssh.WebSocket.{upgraded, ws_subprotocol}
use httpssh.Handler
use httpssh.Manager.{Options, PtyFactory, Manager, Moment, Request, ok}

abbrev pub ready_pty : Pty
ready_pty = record {
  resize_answer = λ cols rows. none;
  write_answer = λ p. none;
  close_answer = none;
}

-- A pseudo-console that does not close.
abbrev pub stuck_pty : Pty
stuck_pty = record ready_pty { close_answer = some (other (codes "busy")) }

abbrev pub first_ready : ℕ → Bool
first_ready i = true

abbrev pub id_a : Text
id_a = codes "a1"

abbrev pub session_a : Session
session_a = record {
  id = id_a;
  title = codes "logs";
  shell = codes "pwsh.exe";
  created_at = 1;
  cols = 80;
  rows = 24;
  pty_calls = [];
  scrollback = new_ring_buffer (pos 8);
  clients = [];
  last_io = 1;
  idle_timeout = pos 100;
  closed = false;
  exit_code = none;
  exit_err = none;
  is_done = false;
  cwd = [];
  resize_repaint_until = none;
  cwd_tracker = new_cwd_tracker;
}

abbrev pub closed_a : Session
closed_a = record session_a { closed = true }

abbrev pub client : Subscriber
client = record {
  out_queue = replay [] ∷ [];
  received = [];
  cancelled = false;
  role = codes "host";
  subscribed_at = 50;
  listed = true;
}

-- With a client, in the window after a resize.
abbrev pub resized_a : Session
resized_a = record session_a { clients = client ∷ []; resize_repaint_until = some 100 }

-- A host with `pwsh` only, where every spawn succeeds.
abbrev pub options : Options
options = record {
  scrollback_bytes = pos 8;
  idle_timeout = pos 100;
  reap_interval = pos 60;
  shells = some (λ name. ok (name, []));
  spawn = some (λ exe args cols rows. none);
}

abbrev pub spawn_nothing : PtyFactory
spawn_nothing exe args cols rows = some (other (codes "no console"))

abbrev pub manager_a : Manager
manager_a = record {
  opts = options;
  by_id = (id_a, session_a) ∷ [];
  closed = false;
  reaping = true;
  unlisted = [];
  host_calls = [];
}

abbrev pub manager_closed_a : Manager
manager_closed_a = record manager_a { by_id = (id_a, closed_a) ∷ [] }

abbrev pub moment : Moment
moment = record { new_id = codes "b2"; now = 500; stamp = codes "10:00" }

abbrev pub request : Request
request = record { shell = codes "pwsh"; cols = 0; rows = 40; title = []; idle_timeout = pos 7 }

abbrev pub linux_host : Host
linux_host = record {
  look_path = λ name. some (codes "/usr/bin/" ++ name);
  stat = λ path. false;
  is_windows = false;
  system_root = [];
  join = λ parts. [];
  encode = λ script. codes "...";
}

abbrev pub home : Text
home = codes "/home"

abbrev pub relative_to : Text → Text → Option Text
relative_to base path =
    if str_eq base path
    then some (codes ".")
    else if str_eq path (codes "/home/b")
    then some (codes "b")
    else if str_eq path (codes "/home/a")
    then some (codes "a")
    else some (codes "../etc")

-- `/home/out` is a link to `/etc`, `/home/gone` is not there, and `/home/b` is a directory.
abbrev pub disk : FileSystem
disk = record {
  from_slash = λ p. p;
  to_slash = λ p. p;
  clean = λ p. p;
  lower = λ p. p;
  is_abs = λ p. str_eq p home;
  join = λ base p. base ++ codes "/" ++ p;
  rel = relative_to;
  separator = codes "/";
  eval_symlinks = λ p. found (if str_eq p (codes "/home/out") then codes "/etc" else p);
  stat = λ p. found (record {
    is_dir = if str_eq p home then true else str_eq p (codes "/home/b");
    file_size = 5;
    mod_time = 1;
  });
  read_dir = λ p. found (codes "a" ∷ codes "out" ∷ codes "b" ∷ []);
  read_file = λ p. found (codes "hello");
  base_name = λ p. codes "a";
  abs = λ p. found p;
}

abbrev pub home_files : Service
home_files = record {
  roots = record { id = codes "h"; name = codes "Home"; path = home } ∷ [];
  max_file_bytes = 100;
}

abbrev pub browser : FileBrowser
browser = record { fs = disk; shift_jis = λ s. none; service = some home_files }

abbrev pub lan_bearer : Text
lan_bearer = codes "0123456789abcdef"

abbrev pub relay_host : Handler.Host
relay_host = record {
  moment = moment;
  pty = ready_pty;
  socket = record {
    upgrade = upgraded ws_subprotocol;
    refusal = 426;
    ended = false;
    role = [];
    now = 70;
  };
  browser = browser;
  version = codes "dev";
  started_at = 0;
  now = 70;
}
