-- ===== src/Svc/Stopping.antt =====
-- relay/internal/svc/svc_windows.go: how the service ends.
use httpssh.Base.{◌≡◌, refl, ap, true, false, Option, none, some, List, [], ◌∷◌, ◌++◌}
use httpssh.Svc.{
  Status, start_pending, running, stop_pending, stopped, interrogate, stop, shutdown, other_command,
  RunError, context_canceled, run_error, Event, requested, run_ended, returned, waits_for_event,
  waits_for_run, Execution, reports, receive_events, execute,
}

-- What ends the loop.
pub data Ending : Type 0 where
  no_ending asked_to_stop failed ended_alone : Ending

abbrev pub ending_of : Option RunError → Ending
ending_of none = ended_alone
ending_of (some context_canceled) = ended_alone
ending_of (some (run_error text)) = failed

-- The first event that is one, and the interrogations before it.
abbrev pub ending : List Event → Ending
ending [] = no_ending
ending (requested stop ∷ es) = asked_to_stop
ending (requested shutdown ∷ es) = asked_to_stop
ending (requested (interrogate s) ∷ es) = ending es
ending (requested (other_command n) ∷ es) = ending es
ending (run_ended e ∷ es) = ending_of e

abbrev pub interrogated : List Event → List Status
interrogated [] = []
interrogated (requested stop ∷ es) = []
interrogated (requested shutdown ∷ es) = []
interrogated (requested (interrogate s) ∷ es) = s ∷ interrogated es
interrogated (requested (other_command n) ∷ es) = interrogated es
interrogated (run_ended e ∷ es) = []

-- The statuses behind the answers, whether the relay is cancelled, and what is returned.
abbrev pub Ends : Option (Option RunError) → List Status → List Status → Ending → Execution → Type 0
Ends last before said no_ending x =
    (x.reported ≡ before ++ said) × (x.cancelled ≡ false) × (x.verdict ≡ waits_for_event)
Ends last before said failed x =
    (x.reported ≡ before ++ said ++ (stopped ∷ []))
    × (x.cancelled ≡ true)
    × (x.verdict ≡ returned true 1)
Ends last before said ended_alone x =
    (x.reported ≡ before ++ said) × (x.cancelled ≡ false) × (x.verdict ≡ waits_for_run)
Ends (some e) before said asked_to_stop x =
    (x.reported ≡ before ++ said ++ (stop_pending ∷ stopped ∷ []))
    × (x.cancelled ≡ true)
    × (x.verdict ≡ returned false 0)
Ends none before said asked_to_stop x =
    (x.reported ≡ before ++ said ++ (stop_pending ∷ []))
    × (x.cancelled ≡ true)
    × (x.verdict ≡ waits_for_run)

-- A status is reported before the others.
reports-Ends :
    (s : Status) (last : Option (Option RunError)) (before said : List Status) (e : Ending)
    (x : Execution)
    → Ends last before said e x
    → Ends last (s ∷ before) said e (reports s x)
reports-Ends s last before said no_ending x (r, c, v) = (ap (◌∷◌ s) r, c, v)
reports-Ends s last before said failed x (r, c, v) = (ap (◌∷◌ s) r, c, v)
reports-Ends s last before said ended_alone x (r, c, v) = (ap (◌∷◌ s) r, c, v)
reports-Ends s (some e) before said asked_to_stop x (r, c, v) = (ap (◌∷◌ s) r, c, v)
reports-Ends s none before said asked_to_stop x (r, c, v) = (ap (◌∷◌ s) r, c, v)

answers-Ends :
    (s : Status) (last : Option (Option RunError)) (said : List Status) (e : Ending) (x : Execution)
    → Ends last [] said e x
    → Ends last [] (s ∷ said) e (reports s x)
answers-Ends s last said no_ending x (r, c, v) = (ap (◌∷◌ s) r, c, v)
answers-Ends s last said failed x (r, c, v) = (ap (◌∷◌ s) r, c, v)
answers-Ends s last said ended_alone x (r, c, v) = (ap (◌∷◌ s) r, c, v)
answers-Ends s (some e) said asked_to_stop x (r, c, v) = (ap (◌∷◌ s) r, c, v)
answers-Ends s none said asked_to_stop x (r, c, v) = (ap (◌∷◌ s) r, c, v)

receive_events-Ends :
    (last : Option (Option RunError)) (es : List Event)
    → Ends last [] (interrogated es) (ending es) (receive_events last es)
unfolding receive_events
receive_events-Ends last [] = (refl, refl, refl)
receive_events-Ends last (requested (interrogate s) ∷ es) =
    answers-Ends s last (interrogated es) (ending es) (receive_events last es)
      (receive_events-Ends last es)
receive_events-Ends last (requested (other_command n) ∷ es) = receive_events-Ends last es
receive_events-Ends none (requested stop ∷ es) = (refl, refl, refl)
receive_events-Ends (some e) (requested stop ∷ es) = (refl, refl, refl)
receive_events-Ends none (requested shutdown ∷ es) = (refl, refl, refl)
receive_events-Ends (some e) (requested shutdown ∷ es) = (refl, refl, refl)
receive_events-Ends last (run_ended none ∷ es) = (refl, refl, refl)
receive_events-Ends last (run_ended (some context_canceled) ∷ es) = (refl, refl, refl)
receive_events-Ends last (run_ended (some (run_error text)) ∷ es) = (refl, refl, refl)

-- A service that is asked to stop or to shut down cancels the relay, and once the relay has returned,
-- reports that it has stopped and returns 0; if the relay fails by itself, it reports that and returns
-- 1. A relay that returns by itself without an error is waited for a second time, without end, and is
-- never reported as stopped. Interrogations before that are answered in order.
pub execute-Ends :
    (last : Option (Option RunError)) (es : List Event)
    → Ends last (start_pending ∷ running ∷ []) (interrogated es) (ending es) (execute last es)
unfolding execute
execute-Ends last es =
    let looped : Execution = receive_events last es in
    reports-Ends start_pending last (running ∷ []) (interrogated es) (ending es)
      (reports running looped)
      (reports-Ends running last [] (interrogated es) (ending es) looped
        (receive_events-Ends last es))
