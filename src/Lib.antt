-- ===== src/Lib.antt =====
-- httpssh: the relay of a remote shell over HTTP.
--
-- The relay (relay/) runs shells in pseudo-consoles and shares each with any number of clients. A
-- manager owns the sessions. For each session one goroutine reads the shell's output, which goes
-- through a tracker of working directories into a scrollback ring and to the queue of every
-- subscriber; another waits for the shell's exit; and a third, one for the manager, reaps sessions that
-- are idle. An HTTP API behind a bearer makes, lists, renames and kills sessions, and a WebSocket joins
-- one: its reader writes to the shell and resizes it, its writer drains the subscriber's queue. Files can
-- be listed and read, below configured roots or below the directory that the shell of a session is in.
-- A client for a terminal beside the relay joins a session as its host.
--
-- Base (with Tests, Lists, Int, Bytes, Maps): lists and tests over the native numbers, byte texts with
-- what the relay uses of Go's `strings` and `bytes`, and association lists for Go's maps.
-- Errors, Http: the error values, and the shapes of a response.
-- Unicode: what the relay uses of Go's `utf8` and `utf16`, and the conversion of a byte text to characters.
-- Ring: relay/internal/session/ringbuffer.go. `write`, `write_at_head` and `snapshot` are `Write`,
--   `writeAtHead` and `Snapshot`.
-- Cwd: relay/internal/session/cwdtracker.go. `feed` is the loop of `feed`, `step_in` its body.
-- Protocol: relay/internal/session/protocol.go; Wire has what the JSON encoding does to the bytes of a
--   frame's text.
-- Session: relay/internal/session/session.go. `publish_output`, `subscribe`, `remove_subscriber`,
--   `fanout`, `resize`, `write_input`, `kill` and `info` are the methods of these names; History has a
--   session under any sequence of events, Sections `WriteInput`, `Resize` and `Kill` by their locked sections
--   (`begin_write`, `begin_resize`, `begin_kill`, then `call_pty_at` and `commit_at`), in any order.
-- Manager: relay/internal/session/manager.go. `create`, `get`, `list`, `rename`, `kill_session`,
--   `shutdown`, `reap_once`, `pump_read` and `wait_exit` are `Create`, `Get`, `List`, `Rename`, `Kill`,
--   `Shutdown`, `reapOnce`, a round of `pump`, and `waitExit`; System has the manager under any steps,
--   Interleaved `reapOnce` with steps between its locked sections.
-- Auth: relay/internal/auth/auth.go. Config: relay/internal/config/config.go.
-- Shell: relay/internal/config/shell.go.
-- Relay: relay/cmd/httpssh-relay/main.go. `build_config` is `buildConfig`; Running has `runRelay`,
--   `newFileService`, `newLogger` and the exit codes of `main`.
-- Server: relay/internal/server/server.go, the handlers by their names; Files has those for files.
-- Handler: `Handler` of that file, from the method and the path of a request to its handler.
-- WebSocket: relay/internal/server/websocket.go.
-- AccessLog: relay/internal/server/access_log.go and relay/internal/server/recovery.go.
-- FileApi: relay/internal/fileapi/service.go. `resolve_base`, `normalize_base` and `list_at` are the
--   functions of these names; Contained says where a resolved path lies, Decoding has `decodeText`,
--   Reading `ReadAt` and `Read`, Roots `NewService`.
-- Attach: relay/cmd/httpssh-relay/attach.go. Client has the requests, Choice `resolveSessionID`, Command
--   `runAttach`, Terminal the loops of `runAttachIO`; Relay joins the client to the relay: a request
--   that the one makes is what the handler of the other is given; Resizing has `watchResize` of
--   relay/cmd/httpssh-relay/attach_windows.go and attach_unix.go.
-- Svc: relay/internal/svc/svc_windows.go. `execute` is `Execute`.
-- Fixtures, and the module Tests of each part: concrete values and runs.
--
-- State is a record, and a method returns the new one; a goroutine is a kind of step or event that may
-- come at any time. A method is one step, also where it lets go of its lock, but for the files named
-- below. What the clock, the random source, the pseudo-console, the file system and a `select` with several ready cases answer is an
-- argument. Loops are structural recursion, so no fuel is needed. Numbers are natural numbers or
-- integers; the one product of a client's number, the idle timeout in nanoseconds, keeps the wrap-around
-- of `int64`, the dimensions of the client's terminal are cut to 16 bits, and the indices of the ring keep
-- their `%`.
--
-- Not modelled: the text of the logs, the syntax of JSON and YAML, TLS and sockets, the WebSocket library,
-- the decoder of Shift_JIS, and the operating system behind the pseudo-console
-- (relay/internal/conpty) and behind the mode of a terminal (`enterRawMode`), since these are other code's
-- or calls of the system only; the embedded files (relay/internal/server/static.go), which the
-- standard library serves; and what other goroutines do between two locked sections of one method,
-- other than those of `reapOnce` (Manager/Interleaved) and of `WriteInput`, `Resize` and `Kill`
-- (Session/Sections): in all other files a write to the shell or a resize is one event, and `wait_exit`
-- ends the subscriptions and takes the session off the list at once.
pub mod Base
pub mod Ring
pub mod Cwd
pub mod Errors
pub mod Protocol
pub mod Session
pub mod Manager
pub mod Http
pub mod Auth
pub mod Config
pub mod Shell
pub mod Relay
pub mod Server
pub mod Unicode
pub mod WebSocket
pub mod Handler
pub mod Attach
pub mod AccessLog
pub mod Svc
pub mod Fixtures
pub mod FileApi
