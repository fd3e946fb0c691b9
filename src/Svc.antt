-- ===== src/Svc.antt =====
-- relay/internal/svc/svc_windows.go: the relay under the service control manager of Windows.
--
-- The channels are what the loop receives from them, in order. `h.run` sends one value, its error, and
-- returns some time after its context is cancelled, or never.
pub mod Stopping
mod Tests
use httpssh.Base.{ℕ, Bool, true, false, Option, none, some, List, [], ◌∷◌, if◌then◌else◌, Text}

pub data Status : Type 0 where
  start_pending running stop_pending stopped : Status
  -- Another state of the service, as the control manager numbers it.
  other_status : ℕ → Status

-- A request, with the status that goes with an interrogation.
pub data ChangeRequest : Type 0 where
  interrogate : Status → ChangeRequest
  stop : ChangeRequest
  shutdown : ChangeRequest
  other_command : ℕ → ChangeRequest

pub data RunError : Type 0 where
  context_canceled : RunError
  run_error : Text → RunError

pub data Event : Type 0 where
  requested : ChangeRequest → Event
  run_ended : Option RunError → Event

-- What `Execute` returns, where it does; it may also wait for a request or for the end of the relay.
pub data Verdict : Type 0 where
  returned : Bool → ℕ → Verdict
  waits_for_event : Verdict
  waits_for_run : Verdict

pub record Execution : Type 0 where
  pub reported : List Status
  pub cancelled : Bool
  pub verdict : Verdict

abbrev pub is_failure : Option RunError → Bool
is_failure none = false
is_failure (some context_canceled) = false
is_failure (some (run_error text)) = true

-- What follows the loop: `<-errCh`, by what that channel still gives.
abbrev pub wait_for_run : Bool → Option (Option RunError) → Execution
wait_for_run cancelled none = record {
  reported = [];
  cancelled = cancelled;
  verdict = waits_for_run;
}
wait_for_run cancelled (some e) = record {
  reported = stopped ∷ [];
  cancelled = cancelled;
  verdict = returned false 0;
}

abbrev pub reports : Status → Execution → Execution
reports s x = record x { reported = s ∷ x.reported }

-- The loop; `last` is the error that `h.run` returns once its context is cancelled, if it returns.
unfoldable pub receive_events : Option (Option RunError) → List Event → Execution
receive_events last [] = record { reported = []; cancelled = false; verdict = waits_for_event }
receive_events last (requested (interrogate s) ∷ es) = reports s (receive_events last es)
receive_events last (requested stop ∷ es) = reports stop_pending (wait_for_run true last)
receive_events last (requested shutdown ∷ es) = reports stop_pending (wait_for_run true last)
receive_events last (requested (other_command n) ∷ es) = receive_events last es
receive_events last (run_ended e ∷ es) =
    if is_failure e
    then record { reported = stopped ∷ []; cancelled = true; verdict = returned true 1 }
    else wait_for_run false none

unfoldable pub execute : Option (Option RunError) → List Event → Execution
unfolding receive_events
execute last es = reports start_pending (reports running (receive_events last es))
