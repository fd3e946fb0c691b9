-- ===== src/Manager/Shutdown.antt =====
-- relay/internal/session/manager.go: `Shutdown` is for good.
use httpssh.Base.{
  ◌≡◌, ◌≢◌, refl, sym, ap, ◌∙◌, true, false≢true, Option, none, some, List, [], ◌∷◌, arith, Text,
  lookup,
}
use httpssh.Session.{Session, Pty, Error, not_found, kill}
use httpssh.Manager.{
  Result, ok, err, Manager, Moment, Request, create, get, or_not_found, rename, rename_found,
  kill_session, kill_found, after_kill, shutdown, reap_each, candidates, reap_once, pump_read,
  wait_exit,
}
use httpssh.Manager.Registry.{Created, made, refused, undone, create-Created, create_ok}
use httpssh.Manager.System.{IsGood, IsGood-create, IsGood-shutdown, run_steps-IsGood}
use httpssh.Manager.Steps.{
  Step, creates, kills_session, renames_session, pumps, exits, reaps, shuts, on_session, apply_to,
  apply_step, run_steps,
}

after_kill-closed :
    (m : Manager) (id : Text) (r : Session × Option Error) → (after_kill m id r).0.closed ≡ m.closed
unfolding after_kill
after_kill-closed m id (s, some e) = refl
after_kill-closed m id (s, none) = refl

kill_found-closed :
    (pty : Pty) (m : Manager) (id : Text) (r : Result Session)
    → (kill_found pty m id r).0.closed ≡ m.closed
unfolding kill_found
kill_found-closed pty m id (err e) = refl
kill_found-closed pty m id (ok s) = after_kill-closed m id (kill pty s)

rename_found-closed :
    (m : Manager) (id title : Text) (r : Result Session)
    → (rename_found m id title r).0.closed ≡ m.closed
unfolding rename_found
rename_found-closed m id title (err e) = refl
rename_found-closed m id title (ok s) = refl

Created-closed :
    (at : Moment) (m : Manager) (r : Manager × Result Session)
    → Created at m r
    → r.0.closed ≡ m.closed
Created-closed at m r (made s args o i c z) = refl
Created-closed at m r (refused e) = refl
Created-closed at m r (undone e exe args cols rows shut) = refl

reap_each-closed :
    (ptys : Text → Pty) (ss : List Session) (m : Manager) → (reap_each ptys m ss).closed ≡ m.closed
unfolding reap_each
reap_each-closed ptys [] m = refl
reap_each-closed ptys (s ∷ ss) m = reap_each-closed ptys ss _

apply_step-closed : (x : Step) (m : Manager) → m.closed ≡ true → (apply_step m x).closed ≡ true
unfolding apply_step
apply_step-closed (creates at req) m h =
    Created-closed at m (create at m req) (create-Created at m req) ∙ h
apply_step-closed (kills_session pty id) m h =
    unfold kill_session in kill_found-closed pty m id (get m id) ∙ h
apply_step-closed (renames_session id title) m h =
    unfold rename in rename_found-closed m id title (get m id) ∙ h
apply_step-closed (pumps pick now id p) m h = unfold pump_read in ground arith
apply_step-closed (exits pick id code werr) m h = unfold wait_exit in ground arith
apply_step-closed (reaps ptys now) m h =
    unfold reap_once in reap_each-closed ptys (candidates now m.by_id) m ∙ h
apply_step-closed (shuts ptys) m h = unfold shutdown in ground arith
apply_step-closed (on_session id e) m h = unfold apply_to in ground arith

run_steps-closed : (xs : List Step) (m : Manager) → m.closed ≡ true → (run_steps m xs).closed ≡ true
unfolding run_steps
run_steps-closed [] m h = h
run_steps-closed (x ∷ xs) m h = run_steps-closed xs (apply_step m x) (apply_step-closed x m h)

shutdown-closed : (ptys : Text → Pty) (m : Manager) → (shutdown ptys m).closed ≡ true
unfolding shutdown
shutdown-closed ptys m = ground arith

-- A shutdown of a manager that keeps the invariant is for good: whatever comes after it, no id leads to a
-- session, and no session is made.
pub run_steps-shutdown :
    (ptys : Text → Pty) (m : Manager) (xs : List Step)
    → IsGood m
    → let t = run_steps (shutdown ptys m) xs in
      ((id : Text) → get t id ≡ err not_found)
      × ((at : Moment) (req : Request) → (create at t req).0.by_id ≡ [])
      × ((at : Moment) (req : Request) (s : Session) → (create at t req).1 ≢ ok s)
run_steps-shutdown ptys m xs g =
    let t : Manager = run_steps (shutdown ptys m) xs in
    let shut : t.closed ≡ true = run_steps-closed xs (shutdown ptys m) (shutdown-closed ptys m) in
    let none_left : t.by_id ≡ [] =
      (run_steps-IsGood xs (shutdown ptys m) (IsGood-shutdown ptys m g)).emptied shut in
    (
      (λ id.
          unfold get lookup in
          ap (λ b. or_not_found (lookup id b)) none_left ∙ unfold or_not_found in refl),
      (λ at req.
          (IsGood-create at t (create at t req)
              (run_steps-IsGood xs (shutdown ptys m) (IsGood-shutdown ptys m g))
              (create-Created at t req)).emptied
            (Created-closed at t (create at t req) (create-Created at t req) ∙ shut)),
      (λ at req s made_one. false≢true (sym (create_ok at t req made_one).4 ∙ shut)),
    )
