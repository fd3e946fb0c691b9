-- ===== src/Manager/Tests.antt =====
-- relay/internal/session/manager.go: runs on concrete managers.
use httpssh.Base.{
  ◌≡◌, ◌≢◌, refl, false, if◌then◌else◌, List, [], ◌∷◌, Text, codes, lookup, delete, str_eq,
}
use httpssh.Session.{Session, not_found, count_listed}
use httpssh.Session.History.{joins}
use httpssh.Manager.{
  Moment, Request, ok, err, create, get, reap_once, is_stale, shutdown, new_manager,
}
use httpssh.Manager.Reaper.{IsKeyed, get-reap_once}
use httpssh.Manager.Interleaved.{reap_around, get-reap_around}
use httpssh.Manager.System.{IsGood, new_manager-IsGood}
use httpssh.Manager.Steps.{Step, creates, kills_session, reaps, on_session, pumps, run_steps}
use httpssh.Manager.Shutdown.{run_steps-shutdown}
use httpssh.Fixtures.{
  ready_pty, stuck_pty, first_ready, id_a, session_a, options, spawn_nothing, manager_a, moment,
  request,
}

abbrev steps : List Step
steps =
    creates moment request
    ∷ on_session (codes "b2") (joins false [] 501)
    ∷ pumps first_ready 502 (codes "b2") (codes "hello")
    ∷ reaps (λ id. ready_pty) 503
    ∷ kills_session stuck_pty (codes "b2")
    ∷ []

new_manager-IsGood_example : IsGood (run_steps (new_manager spawn_nothing options) steps)
new_manager-IsGood_example = new_manager-IsGood spawn_nothing options steps

run_steps-shutdown_example :
    ((id : Text)
      → get
          (run_steps
            (shutdown (λ i. ready_pty) (run_steps (new_manager spawn_nothing options) steps))
            steps)
          id
        ≡ err not_found)
    × ((at : Moment) (req : Request)
        → (create at
            (run_steps
              (shutdown (λ i. ready_pty) (run_steps (new_manager spawn_nothing options) steps))
              steps)
            req).0.by_id
          ≡ [])
    × ((at : Moment) (req : Request) (s : Session)
        → (create at
            (run_steps
              (shutdown (λ i. ready_pty) (run_steps (new_manager spawn_nothing options) steps))
              steps)
            req).1
          ≢ ok s)
run_steps-shutdown_example =
    run_steps-shutdown (λ i. ready_pty) (run_steps (new_manager spawn_nothing options) steps) steps
      (new_manager-IsGood spawn_nothing options steps)

manager_a-IsKeyed : IsKeyed manager_a.by_id
manager_a-IsKeyed = record { own_id = (refl, tt); distinct = (unfold lookup in refl, tt) }

get-reap_once_example :
    get (reap_once (λ i. ready_pty) 500 manager_a).0 id_a
    ≡ (if is_stale 500 session_a then err not_found else ok session_a)
get-reap_once_example =
    get-reap_once (λ i. ready_pty) 500 manager_a id_a manager_a-IsKeyed
      (unfold get lookup str_eq in refl)

reaps_idle : get (reap_once (λ i. ready_pty) 500 manager_a).0 id_a ≡ err not_found
unfolding get reap_once is_stale count_listed lookup delete str_eq
reaps_idle = refl

-- A client joins between the pass and the kills.
get-reap_around_example :
    get
      (reap_around (λ i. ready_pty) 500 (on_session id_a (joins false [] 501) ∷ []) manager_a)
      id_a
    ≡ err not_found
get-reap_around_example =
    get-reap_around (λ i. ready_pty) 500 manager_a (on_session id_a (joins false [] 501) ∷ []) id_a
      session_a manager_a-IsKeyed (unfold get lookup str_eq in refl)
      (unfold is_stale count_listed in refl)
