-- ===== src/Svc/Tests.antt =====
-- relay/internal/svc/svc_windows.go: a service that is interrogated to stop.
use httpssh.Base.{none, some, List, [], ◌∷◌}
use httpssh.Svc.{start_pending, running, interrogate, stop, Event, requested, execute}
use httpssh.Svc.Stopping.{Ends, interrogated, ending, execute-Ends}

abbrev events : List Event
events = requested (interrogate running) ∷ requested stop ∷ []

execute-Ends_example :
    Ends
      (some none)
      (start_pending ∷ running ∷ [])
      (interrogated events)
      (ending events)
      (execute (some none) events)
execute-Ends_example = execute-Ends (some none) events
