-- ===== src/Attach.antt =====
-- relay/cmd/httpssh-relay/attach.go: the client that runs in a terminal beside the relay.
--
-- `net/url` and the flags are arguments; so is the network, in the child that uses it. The usage text and
-- the setting of the terminal's mode are not modelled.
pub mod Client
pub mod Choice
pub mod Terminal
pub mod Resizing
pub mod Screen
pub mod Relay
pub mod Exchanges
pub mod Joining
pub mod Socket
pub mod Command
mod Tests
use httpssh.Base.{
  ℕ, ◌+◌, ◌-◌, ◌*◌, Bool, true, false, not, ◌&&◌, ◌||◌, Option, none, some, List, [], ◌∷◌, ◌++◌,
  ltb, if◌then◌else◌, Text, codes, str_eq, contains, trim_space, trim_right, Table, insert, length,
  take,
}
use httpssh.Config.{Config}

-- The parts of a URL that the client reads or sets.
pub record Url : Type 0 where
  pub scheme : Text
  pub host : Text
  pub path : Text
  pub raw_query : Text

-- `net/url`: `url.Parse`, `String`, `Query` and `Encode`.
pub record UrlLibrary : Type 0 where
  pub parse : Text → Option Url
  pub string : Url → Text
  pub query : Text → Table Text
  pub encode : Table Text → Text

-- What the command is given: its flags, and what `config.Load` yields.
pub record AttachFlags : Type 0 where
  pub listen : Text
  pub bearer : Text
  pub log_level : Text
  pub session : Text
  pub make_new : Bool
  pub list_only : Bool
  pub shell : Text
  pub title : Text

pub record AttachOpts : Type 0 where
  pub listen_url : Text
  pub bearer : Text
  pub log_level : Text
  pub session_id : Text
  pub make_new : Bool
  pub list_only : Bool
  pub shell_name : Text
  pub title_hint : Text

-- The errors that the client reports, with what their texts name.
pub data AttachError : Type 0 where
  no_config no_bearer listen_url_empty no_terminal empty_session_id read_failed : AttachError
  unparsable_url bad_scheme no_host : Text → AttachError
  no_answer undecodable : Text → AttachError
  bad_status : ℕ → Text → AttachError
  unknown_session invalid_choice : Text → AttachError

pub data Attempt {ℓ} (A : Type ℓ) : Type ℓ where
  done : A → Attempt A
  gave_up : AttachError → Attempt A

unfoldable pub first_non_empty : List Text → Text
unfolding str_eq
first_non_empty [] = []
first_non_empty (v ∷ vs) = if not (str_eq v []) then v else first_non_empty vs

unfoldable pub attach_opts : AttachFlags → Config → AttachOpts
unfolding first_non_empty trim_space
attach_opts f c = record {
  listen_url = first_non_empty (f.listen ∷ c.listen ∷ []);
  bearer = first_non_empty (f.bearer ∷ c.lan_bearer ∷ []);
  log_level = first_non_empty (f.log_level ∷ c.level ∷ []);
  session_id = trim_space f.session;
  make_new = f.make_new;
  list_only = f.list_only;
  shell_name = trim_space f.shell;
  title_hint = f.title;
}

abbrev pub is_http : Text → Bool
is_http scheme = str_eq scheme (codes "http") || str_eq scheme (codes "https")

pub checked_url : Text → Option Url → Attempt Url
unfolding str_eq
checked_url raw none = gave_up (unparsable_url raw)
checked_url raw (some u) =
    if not (is_http u.scheme)
    then gave_up (bad_scheme u.scheme)
    else if str_eq u.host []
    then gave_up (no_host raw)
    else done u

abbrev pub with_scheme : Text → Text
with_scheme raw = if contains raw (codes "://") then raw else codes "http://" ++ raw

unfoldable pub normalize_relay_url : UrlLibrary → Text → Attempt Url
unfolding trim_space checked_url contains str_eq
normalize_relay_url lib text =
    let raw = trim_space text in
    if str_eq raw []
    then gave_up listen_url_empty
    else checked_url (with_scheme raw) (lib.parse (with_scheme raw))

abbrev pub ws_scheme : Text → Text
ws_scheme scheme =
    if str_eq scheme (codes "http")
    then codes "ws"
    else if str_eq scheme (codes "https")
    then codes "wss"
    else scheme

abbrev pub io_path : Text → Text → Text
io_path path session_id =
    trim_right b'/' path ++ codes "/api/sessions/" ++ session_id ++ codes "/io"

abbrev pub ws_query : Bool → Text → Table Text → Table Text
ws_query host_role bearer q =
    let with_token = insert (codes "token") bearer q in
    if host_role then insert (codes "role") (codes "host") with_token else with_token

-- `buildAttachWSURL`, as the parts of the URL whose `String` it returns. `q.Set` leaves one value of a
-- name.
unfoldable pub build_attach_ws_url : UrlLibrary → Url → Text → Text → Bool → Attempt Url
unfolding str_eq trim_right insert
build_attach_ws_url lib base session_id bearer host_role =
    if str_eq session_id []
    then gave_up empty_session_id
    else done (record base {
      scheme = ws_scheme base.scheme;
      path = io_path base.path session_id;
      raw_query = lib.encode (ws_query host_role bearer (lib.query base.raw_query));
    })

-- What is shown of an id in a menu; the last three bytes are those of an ellipsis.
unfoldable pub abbreviated : Text → ℕ → Text
abbreviated s n = if not (ltb n (length s)) then s else take n s ++ (0xe2 ∷ 0x80 ∷ 0xa6 ∷ [])
