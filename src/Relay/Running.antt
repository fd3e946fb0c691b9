-- ===== src/Relay/Running.antt =====
-- relay/cmd/httpssh-relay/main.go: `runRelay` and the exit codes of `main`.
--
-- What happens while the relay runs is a list of steps of the manager. The listener, signals and the
-- service control manager are what ends it.
pub mod Ended
use httpssh.Base.{
  ℕ, Bool, true, false, Option, none, some, List, [], ◌∷◌, if◌then◌else◌, Text, codes, str_eq, map,
}
use httpssh.Config.{Config, FileRootConfig}
use httpssh.Shell.{Host}
use httpssh.Session.{Pty}
use httpssh.Manager.{Manager, PtyFactory, shutdown}
use httpssh.Manager.Steps.{Step, run_steps}
use httpssh.FileApi.{FileSystem, FileError, RootConfig, FileConfig, Service, Outcome, good, bad}
use httpssh.FileApi.Roots.{new_service}
use httpssh.Relay.{Built, built, failed_build, relay_manager}

-- `newLogger`: the level that is logged.
pub data Level : Type 0 where
  level_debug level_info level_warn level_error : Level

unfoldable pub new_logger : Text → Level
unfolding str_eq
new_logger level =
    if str_eq level (codes "debug")
    then level_debug
    else if str_eq level (codes "info")
    then level_info
    else if str_eq level []
    then level_info
    else if str_eq level (codes "warn")
    then level_warn
    else if str_eq level (codes "error")
    then level_error
    else level_info

abbrev pub root_config_of : FileRootConfig → RootConfig
root_config_of r = record { id = r.id; name = r.name; path = r.path }

abbrev pub file_config_of : Config → FileConfig
file_config_of c = record { roots = map root_config_of c.roots; max_file_bytes = c.max_file_bytes }

unfoldable pub new_file_service : FileSystem → Config → Outcome Service
unfolding new_service
new_file_service fs c = new_service fs (file_config_of c)

-- What ends the relay: the listener, with its error if it has one, or the context, with the error of
-- `httpSrv.Shutdown` if that has one.
pub data Stop : Type 0 where
  listener_ended : Option Text → Stop
  context_done : Option Text → Stop

pub data RunResult : Type 0 where
  finished : RunResult
  file_service_failed : FileError → RunResult
  listen_failed shutdown_failed : Text → RunResult

abbrev pub result_of : Stop → RunResult
result_of (listener_ended none) = finished
result_of (listener_ended (some e)) = listen_failed e
result_of (context_done none) = finished
result_of (context_done (some e)) = shutdown_failed e

-- `late` are the steps of requests that are still served during and after `mgr.Shutdown`.
pub run_service :
    PtyFactory
    → Host
    → (Text → Pty)
    → Config
    → List Step
    → List Step
    → Stop
    → Outcome Service
    → Option Manager × RunResult
unfolding run_steps shutdown relay_manager
run_service spawn h ptys c steps late stop (bad e) = (none, file_service_failed e)
run_service spawn h ptys c steps late stop (good s) = (
  some (run_steps (shutdown ptys (run_steps (relay_manager spawn h c) steps)) late),
  result_of stop,
)

unfoldable pub run_relay :
    FileSystem
    → PtyFactory
    → Host
    → (Text → Pty)
    → Config
    → List Step
    → List Step
    → Stop
    → Option Manager × RunResult
unfolding run_service new_file_service
run_relay fs spawn h ptys c steps late stop =
    run_service spawn h ptys c steps late stop (new_file_service fs c)

-- The exit code of `main`, which runs a relay where it has a configuration.
unfoldable pub exit_status : (Config → RunResult) → Built → ℕ
exit_status run (failed_build e) = 2
exit_status run (built c) = elim (run c) [
  | finished ↦ 0
  | file_service_failed e ↦ 1
  | listen_failed e ↦ 1
  | shutdown_failed e ↦ 1
]
