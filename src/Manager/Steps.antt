-- ===== src/Manager/Steps.antt =====
-- relay/internal/session/manager.go: the steps of the manager.
use httpssh.Base.{ℕ, Bool, Option, none, some, List, [], ◌∷◌, ℤ, Text, lookup, insert}
use httpssh.Session.{Pty, Error}
use httpssh.Session.History.{Event, apply}
use httpssh.Manager.{
  Manager, Moment, Request, create, rename, kill_session, shutdown, reap_once, pump_read, wait_exit,
}

pub data Step : Type 0 where
  creates : Moment → Request → Step
  kills_session : Pty → Text → Step
  renames_session : Text → Text → Step
  pumps : (ℕ → Bool) → ℕ → Text → Text → Step
  exits : (ℕ → Bool) → Text → ℤ → Option Error → Step
  reaps : (Text → Pty) → ℕ → Step
  shuts : (Text → Pty) → Step
  -- A client of a listed session: it joins, leaves, writes, resizes, takes a frame.
  on_session : Text → Event → Step

unfoldable pub apply_to : Manager → Text → Event → Manager
apply_to m id e = elim (lookup id m.by_id) [
  | none ↦ m
  | some s ↦ record m { by_id = insert id (apply s e) m.by_id }
]

unfoldable pub apply_step : Manager → Step → Manager
unfolding apply_to
apply_step m (creates at req) = (create at m req).0
apply_step m (kills_session pty id) = (kill_session pty m id).0
apply_step m (renames_session id title) = (rename m id title).0
apply_step m (pumps pick now id p) = pump_read pick now m id p
apply_step m (exits pick id code werr) = wait_exit pick m id code werr
apply_step m (reaps ptys now) = (reap_once ptys now m).0
apply_step m (shuts ptys) = shutdown ptys m
apply_step m (on_session id e) = apply_to m id e

unfoldable pub run_steps : Manager → List Step → Manager
unfolding apply_step
run_steps m [] = m
run_steps m (x ∷ xs) = run_steps (apply_step m x) xs
