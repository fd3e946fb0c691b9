-- ===== src/Session/Data.antt =====
-- relay/internal/session/session.go: the data of a session, and `Info`.
use httpssh.Base.{
  ℕ, ◌+◌, ◌*◌, ◌/◌, Bool, false, ◌&&◌, ◌||◌, Option, List, [], ◌∷◌, ℤ, to_nat, if◌then◌else◌, Text,
  codes, str_eq,
}
use httpssh.Cwd.{CwdTracker}
use httpssh.Errors.{Error}
use httpssh.Protocol.{ServerFrame}
use httpssh.Ring.{RingBuffer}

abbrev pub default_subscriber_queue : ℕ
default_subscriber_queue = 256

-- 750 ms
abbrev pub resize_repaint_window : ℕ
resize_repaint_window = 750 * 1_000_000

abbrev pub max_cols : ℕ
max_cols = 500

abbrev pub max_rows : ℕ
max_rows = 200

abbrev pub role_host : Text
role_host = codes "host"

-- `out` is the channel's queue, oldest first; `received` is what the websocket writer has taken from
-- it; `cancelled` says that `ctx` is done.
pub record Subscriber : Type 0 where
  pub out_queue : List ServerFrame
  pub received : List ServerFrame
  pub cancelled : Bool
  pub role : Text
  pub subscribed_at : ℕ
  pub listed : Bool

-- The calls that reach the pseudo-console, oldest first.
pub data PtyCall : Type 0 where
  pty_resize : ℕ → ℕ → PtyCall
  pty_write : Text → PtyCall
  pty_close : PtyCall

-- What the pseudo-console answers: `none` is a nil error.
pub record Pty : Type 0 where
  pub resize_answer : ℕ → ℕ → Option Error
  pub write_answer : Text → Option Error
  pub close_answer : Option Error

pub record Session : Type 0 where
  pub id : Text
  pub title : Text
  pub shell : Text
  pub created_at : ℕ
  pub cols : ℕ
  pub rows : ℕ
  pub pty_calls : List PtyCall
  pub scrollback : RingBuffer
  pub clients : List Subscriber
  pub last_io : ℕ
  pub idle_timeout : ℤ
  pub closed : Bool
  pub exit_code : Option ℤ
  pub exit_err : Option Error
  pub is_done : Bool
  pub cwd : Text
  pub resize_repaint_until : Option ℕ
  pub cwd_tracker : CwdTracker

pub record SessionInfo : Type 0 where
  pub id : Text
  pub title : Text
  pub shell : Text
  pub cols : ℕ
  pub rows : ℕ
  pub created_at : ℕ
  pub last_io : ℕ
  pub subscribers : ℕ
  pub host_attached : Bool
  pub cwd : Text
  pub idle_timeout_seconds : ℕ

-- `len(s.subs)`
unfoldable pub count_listed : List Subscriber → ℕ
count_listed [] = 0
count_listed (c ∷ cs) = (if c.listed then 1 else 0) + count_listed cs

unfoldable pub any_host : List Subscriber → Bool
any_host [] = false
any_host (c ∷ cs) = (c.listed && str_eq c.role role_host) || any_host cs

-- The idle timeout is not negative in a session that `Create` made.
unfoldable pub info : Session → SessionInfo
unfolding count_listed any_host
info s = record {
  id = s.id;
  title = s.title;
  shell = s.shell;
  cols = s.cols;
  rows = s.rows;
  created_at = s.created_at;
  last_io = s.last_io;
  subscribers = count_listed s.clients;
  host_attached = any_host s.clients;
  cwd = s.cwd;
  idle_timeout_seconds = to_nat s.idle_timeout / 1_000_000_000;
}

abbrev pub set_cwd : Session → Text → Session
set_cwd s path = record s { cwd = path }
