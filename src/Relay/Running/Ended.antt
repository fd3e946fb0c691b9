-- ===== src/Relay/Running/Ended.antt =====
-- relay/cmd/httpssh-relay/main.go: how a relay ends.
use httpssh.Base.{◌≡◌, ◌≢◌, refl, Option, none, some, List, Text}
use httpssh.Errors.{ok, err, not_found}
use httpssh.Config.{Config}
use httpssh.Shell.{Host}
use httpssh.Session.{Session, Pty}
use httpssh.Manager.{Manager, Moment, Request, PtyFactory, create, get}
use httpssh.Manager.Steps.{Step, run_steps}
use httpssh.Manager.System.{IsGood, new_manager-IsGood}
use httpssh.Manager.Shutdown.{run_steps-shutdown}
use httpssh.FileApi.{FileSystem, FileError, Service, Outcome, good, bad}
use httpssh.FileApi.Roots.Served.{AllServed, new_service-AllServed}
use httpssh.Relay.{relay_options, relay_manager}
use httpssh.Relay.Running.{
  file_config_of, new_file_service, Stop, RunResult, file_service_failed, result_of, run_service,
  run_relay,
}

-- No relay was started, for the sake of the file service; or one was, with all roots that its configuration
-- names, and none of its sessions is left, and none can be made.
abbrev pub IsEnded : FileSystem → Config → Stop → Option Manager × RunResult → Type 0
IsEnded fs c stop (none, result) =
    (e : FileError) × (new_file_service fs c ≡ bad e) × (result ≡ file_service_failed e)
IsEnded fs c stop (some t, result) =
    ((s : Service) × (new_file_service fs c ≡ good s)
      × AllServed fs (file_config_of c).roots s.roots)
    × ((id : Text) → get t id ≡ err not_found)
    × ((at : Moment) (req : Request) (s : Session) → (create at t req).1 ≢ ok s)
    × (result ≡ result_of stop)

relay_manager-IsGood :
    (spawn : PtyFactory) (h : Host) (c : Config) (steps : List Step)
    → IsGood (run_steps (relay_manager spawn h c) steps)
unfolding relay_manager
relay_manager-IsGood spawn h c steps = new_manager-IsGood spawn (relay_options h c) steps

-- However a relay ends, by its listener or by its context, with an error or without: the sessions that were
-- there are gone, whatever requests are still served meanwhile. A relay whose file service cannot be made
-- is not started.
pub run_relay-IsEnded :
    (fs : FileSystem) (spawn : PtyFactory) (h : Host) (ptys : Text → Pty) (c : Config)
    (steps late : List Step) (stop : Stop)
    → IsEnded fs c stop (run_relay fs spawn h ptys c steps late stop)
unfolding run_relay
run_relay-IsEnded fs spawn h ptys c steps late stop = by_service (new_file_service fs c) refl
  where
    by_service :
        (o : Outcome Service)
        → new_file_service fs c ≡ o
        → IsEnded fs c stop (run_service spawn h ptys c steps late stop o)
    by_service (bad e) h' = unfold run_service in (e, h', refl)
    by_service (good s) h' =
        let (gone, empty, refused) =
          run_steps-shutdown ptys (run_steps (relay_manager spawn h c) steps) late
            (relay_manager-IsGood spawn h c steps) in
        unfold run_service in
        (
          (
            s,
            h',
            (new_service-AllServed fs (file_config_of c) s (unfold new_file_service in h')).0,
          ),
          gone,
          refused,
          refl,
        )
