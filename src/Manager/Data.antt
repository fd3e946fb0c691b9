-- ===== src/Manager/Data.antt =====
-- relay/internal/session/manager.go: the data of the manager, `NewManager`, and the session that `Create`
-- makes.
use httpssh.Base.{
  ℕ, ◌*◌, Bool, true, false, Option, none, some, List, [], ◌∷◌, ◌++◌, ℤ, pos, non_positive,
  is_negative, ◌==◌, if◌then◌else◌, Text, codes, str_eq, Table,
}
use httpssh.Errors.{Result}
use httpssh.Ring.{new_ring_buffer}
use httpssh.Cwd.{new_cwd_tracker}
use httpssh.Session.{Session, Error}

-- A logical shell name to an executable and its arguments.
abbrev pub ShellResolver : Type 0
ShellResolver = Text → Result (Text × List Text)

-- `none` is a new pseudo-console, `some` the error.
abbrev pub PtyFactory : Type 0
PtyFactory = Text → List Text → ℕ → ℕ → Option Error

pub record Options : Type 0 where
  pub scrollback_bytes : ℤ
  pub idle_timeout : ℤ
  pub reap_interval : ℤ
  pub shells : Option ShellResolver
  pub spawn : Option PtyFactory

-- The pseudo-consoles that `Create` made, and those that it closed again.
pub data HostCall : Type 0 where
  host_opened : Text → List Text → ℕ → ℕ → HostCall
  host_close : HostCall

pub record Manager : Type 0 where
  pub opts : Options
  pub by_id : Table Session
  pub closed : Bool
  pub reaping : Bool
  pub unlisted : List Session
  pub host_calls : List HostCall

-- 4 MiB, 24 hours and 60 seconds.
abbrev pub default_scrollback_bytes : ℤ
default_scrollback_bytes = pos (4 * 1_048_576)

abbrev pub default_idle_timeout : ℤ
default_idle_timeout = pos (24 * 3600 * 1_000_000_000)

abbrev pub default_reap_interval : ℤ
default_reap_interval = pos (60 * 1_000_000_000)

abbrev or_default : ℤ → ℤ → ℤ
or_default x d = if non_positive x then d else x

abbrev or_factory : Option PtyFactory → PtyFactory → Option PtyFactory
or_factory none d = some d
or_factory (some f) d = some f

-- `conpty_spawn` is `conpty.Spawn`.
unfoldable pub new_manager : PtyFactory → Options → Manager
new_manager conpty_spawn o = record {
  opts = record {
    scrollback_bytes = or_default o.scrollback_bytes default_scrollback_bytes;
    idle_timeout = or_default o.idle_timeout default_idle_timeout;
    reap_interval = or_default o.reap_interval default_reap_interval;
    shells = o.shells;
    spawn = or_factory o.spawn conpty_spawn;
  };
  by_id = [];
  closed = false;
  reaping = true;
  unlisted = [];
  host_calls = [];
}

unfoldable pub shell_label : Text → Text
shell_label name =
    if str_eq name (codes "powershell")
    then codes "powershell"
    else if str_eq name (codes "cmd")
    then codes "cmd"
    else codes "pwsh"

-- What `Create` asks of the host: a random id, the time, and the time as the title spells it.
pub record Moment : Type 0 where
  pub new_id : Text
  pub now : ℕ
  pub stamp : Text

-- What a client asks for.
pub record Request : Type 0 where
  pub shell : Text
  pub cols : ℕ
  pub rows : ℕ
  pub title : Text
  pub idle_timeout : ℤ

abbrev pub or_number : ℕ → ℕ → ℕ
or_number x d = if x == 0 then d else x

abbrev pub or_text : Text → Text → Text
or_text [] d = d
or_text (x ∷ s) d = x ∷ s

unfoldable pub new_session : Options → Moment → Request → Text → ℕ → ℕ → Session
unfolding shell_label new_ring_buffer
new_session o at req exe cols rows = record {
  id = at.new_id;
  title = or_text req.title (shell_label req.shell ++ (codes " " ++ at.stamp));
  shell = exe;
  created_at = at.now;
  cols = cols;
  rows = rows;
  pty_calls = [];
  scrollback = new_ring_buffer o.scrollback_bytes;
  clients = [];
  last_io = at.now;
  idle_timeout = if is_negative req.idle_timeout then o.idle_timeout else req.idle_timeout;
  closed = false;
  exit_code = none;
  exit_err = none;
  is_done = false;
  cwd = [];
  resize_repaint_until = none;
  cwd_tracker = new_cwd_tracker;
}

abbrev pub calls : Manager → HostCall → Manager
calls m c = record m { host_calls = m.host_calls ++ (c ∷ []) }
