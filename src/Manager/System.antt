-- ===== src/Manager/System.antt =====
-- relay/internal/session/manager.go: the manager driven by requests, by the shells and by the reaper, in
-- any order.
use httpssh.Base.{
  ℕ, ◌≡◌, refl, ap, ◌∙◌, inl, inr, Bool, true, Option, none, some, List, [], ◌∷◌, ℤ, ◌==◌, if_cases,
  Option-cases, length, Text, lookup, insert, delete, Every, Distinct, Every-insert, Every-delete,
  Every-lookup, insert-Distinct, delete-Distinct,
}
use httpssh.Cwd.{feed}
use httpssh.Cwd.Chunks.{feed-IsBounded}
use httpssh.Session.{Session, Pty, Error, kill}
use httpssh.Session.History.{Event, publishes, kills, renames, apply}
use httpssh.Session.Sound.{IsSound, apply-IsSound, apply-id}
use httpssh.Manager.{
  Result, PtyFactory, Options, Manager, Moment, create, get, or_not_found, rename, rename_found,
  kill_session, kill_found, after_kill, shutdown, reap_each, candidates, reap_once, pump_chunk,
  pump_read, wait_exit, new_manager,
}
use httpssh.Manager.Registry.{Created, made, refused, undone, create-Created}
use httpssh.Manager.Steps.{
  Step, creates, kills_session, renames_session, pumps, exits, reaps, shuts, on_session, apply_to,
  apply_step, run_steps,
}

abbrev pub IsListed : Text → Session → Type 0
IsListed id s = (s.id ≡ id) × IsSound s

-- Each id once, each session under its own id and sound, and none once the manager is shut.
pub record IsGood (m : Manager) : Type 0 where
  pub distinct : Distinct m.by_id
  pub sound : Every IsListed m.by_id
  pub emptied : m.closed ≡ true → m.by_id ≡ []

module _ (m : Manager) (id : Text) (g : IsGood m) where
  IsGood-insert :
      (s s' : Session)
      → lookup id m.by_id ≡ some s
      → IsListed id s'
      → IsGood (record m { by_id = insert id s' m.by_id })
  IsGood-insert s s' found l = record {
    distinct = insert-Distinct id s' m.by_id g.distinct;
    sound = Every-insert IsListed id s' m.by_id l g.sound;
    emptied = λ shut. absurd (nothing_there (g.emptied shut));
  }
    where
      nothing_there : m.by_id ≡ [] → ⊥
      nothing_there e = unfold lookup in cc (ap (lookup id) e)

  IsGood-delete : (u : List Session) → IsGood (record m { by_id = delete id m.by_id; unlisted = u })
  IsGood-delete u = record {
    distinct = delete-Distinct id m.by_id g.distinct;
    sound = Every-delete IsListed id m.by_id g.sound;
    emptied = λ shut. ap (delete id) (g.emptied shut) ∙ unfold delete in refl;
  }

  pub lookup-IsListed : {s : Session} → lookup id m.by_id ≡ some s → IsListed id s
  lookup-IsListed found = Every-lookup IsListed id m.by_id g.sound found

pub IsListed-apply : (id : Text) (s : Session) (e : Event) → IsListed id s → IsListed id (apply s e)
IsListed-apply id s e (i, h) = (apply-id e s ∙ i, apply-IsSound e s h)

pub IsGood-create :
    (at : Moment) (m : Manager) (r : Manager × Result Session)
    → IsGood m
    → Created at m r
    → IsGood r.0
IsGood-create at m r g (made s args o i c z) = record {
  distinct = insert-Distinct s.id s m.by_id g.distinct;
  sound = Every-insert IsListed s.id s m.by_id (refl, z) g.sound;
  emptied = λ shut. cc;
}
IsGood-create at m r g (refused e) = g
IsGood-create at m r g (undone e exe args cols rows shut) = record {
  distinct = g.distinct;
  sound = g.sound;
  emptied = g.emptied;
}

-- What a step does with the session that it finds, or with none.
module _ (m : Manager) (id : Text) (g : IsGood m) where
  IsGood-after_kill :
      (s : Session) (r : Session × Option Error)
      → lookup id m.by_id ≡ some s
      → IsListed id r.0
      → IsGood (after_kill m id r).0
  unfolding after_kill
  IsGood-after_kill s (s', some e) found l = IsGood-insert m id g s s' found l
  IsGood-after_kill s (s', none) found l = IsGood-delete m id g (s' ∷ m.unlisted)

  IsGood-kill_found :
      (pty : Pty) (o : Option Session)
      → lookup id m.by_id ≡ o
      → IsGood (kill_found pty m id (or_not_found o)).0
  unfolding kill_found or_not_found
  IsGood-kill_found pty none found = g
  IsGood-kill_found pty (some s) found =
      IsGood-after_kill s (kill pty s) found
        (unfold apply in IsListed-apply id s (kills pty) (lookup-IsListed m id g found))

  IsGood-rename_found :
      (title : Text) (o : Option Session)
      → lookup id m.by_id ≡ o
      → IsGood (rename_found m id title (or_not_found o)).0
  unfolding rename_found or_not_found
  IsGood-rename_found title none found = g
  IsGood-rename_found title (some s) found =
      IsGood-insert m id g s _ found
        (unfold apply in IsListed-apply id s (renames title) (lookup-IsListed m id g found))

  pump_chunk-IsListed :
      (pick : ℕ → Bool) (now : ℕ) (s : Session) (p : Text)
      → IsListed id s
      → IsListed id (pump_chunk pick now s p)
  unfolding pump_chunk
  pump_chunk-IsListed pick now s p (i, h) =
      if_cases (IsListed id) (length p == 0) s _ (λ _. (i, h))
        λ _.
          let t : Session = record s { cwd_tracker = (feed s.cwd_tracker p).0 } in
          let k : IsSound t = record {
            sized = h.sized;
            conform = h.conform;
            ring = h.ring;
            tracked = feed-IsBounded s.cwd_tracker p h.tracked;
          } in
          unfold apply in IsListed-apply id t (publishes pick p (feed s.cwd_tracker p).1 now) (i, k)

pub IsGood-pump_read :
    (pick : ℕ → Bool) (now : ℕ) (m : Manager) (id p : Text)
    → IsGood m
    → IsGood (pump_read pick now m id p)
unfolding pump_read
IsGood-pump_read pick now m id p g = elim (Option-cases (lookup id m.by_id)) [
  | inl e ↦
      rw (e, pump_read) (record { distinct = g.distinct; sound = g.sound; emptied = g.emptied })
  | inr (s, e) ↦
      rw (e, pump_read)
        (IsGood-insert m id g s _ e
          (pump_chunk-IsListed m id g pick now s p (lookup-IsListed m id g e)))
]

pub IsGood-apply_to : (m : Manager) (id : Text) (e : Event) → IsGood m → IsGood (apply_to m id e)
unfolding apply_to
IsGood-apply_to m id e g = elim (Option-cases (lookup id m.by_id)) [
  | inl x ↦ rw (x, apply_to) g
  | inr (s, x) ↦
      rw (x, apply_to)
        (IsGood-insert m id g s _ x (IsListed-apply id s e (lookup-IsListed m id g x)))
]

pub IsGood-wait_exit :
    (pick : ℕ → Bool) (m : Manager) (id : Text) (code : ℤ) (werr : Option Error)
    → IsGood m
    → IsGood (wait_exit pick m id code werr)
unfolding wait_exit
IsGood-wait_exit pick m id code werr g = elim (Option-cases (lookup id m.by_id)) [
  | inl x ↦
      rw (x, wait_exit) (record { distinct = g.distinct; sound = g.sound; emptied = g.emptied })
  | inr (s, x) ↦ rw (x, wait_exit) (IsGood-delete m id g _)
]

pub IsGood-reap_each :
    (ptys : Text → Pty) (ss : List Session) (m : Manager) → IsGood m → IsGood (reap_each ptys m ss)
unfolding reap_each
IsGood-reap_each ptys [] m g = g
IsGood-reap_each ptys (s ∷ ss) m g = IsGood-reap_each ptys ss _ (IsGood-delete m s.id g _)

pub IsGood-shutdown : (ptys : Text → Pty) (m : Manager) → IsGood m → IsGood (shutdown ptys m)
unfolding shutdown
IsGood-shutdown ptys m g =
    if_cases IsGood m.closed m _ (λ _. g)
      (λ _. record { distinct = tt; sound = tt; emptied = λ _. refl })

pub apply_step-IsGood : (x : Step) (m : Manager) → IsGood m → IsGood (apply_step m x)
unfolding apply_step
apply_step-IsGood (creates at req) m g =
    IsGood-create at m (create at m req) g (create-Created at m req)
apply_step-IsGood (kills_session pty id) m g =
    unfold kill_session get in IsGood-kill_found m id g pty (lookup id m.by_id) refl
apply_step-IsGood (renames_session id title) m g =
    unfold rename get in IsGood-rename_found m id g title (lookup id m.by_id) refl
apply_step-IsGood (pumps pick now id p) m g = IsGood-pump_read pick now m id p g
apply_step-IsGood (exits pick id code werr) m g = IsGood-wait_exit pick m id code werr g
apply_step-IsGood (reaps ptys now) m g =
    unfold reap_once in IsGood-reap_each ptys (candidates now m.by_id) m g
apply_step-IsGood (shuts ptys) m g = IsGood-shutdown ptys m g
apply_step-IsGood (on_session id e) m g = IsGood-apply_to m id e g

pub run_steps-IsGood : (xs : List Step) (m : Manager) → IsGood m → IsGood (run_steps m xs)
unfolding run_steps
run_steps-IsGood [] m g = g
run_steps-IsGood (x ∷ xs) m g = run_steps-IsGood xs (apply_step m x) (apply_step-IsGood x m g)

-- Whatever a relay does from its start, every id leads to at most one session, which carries it, has
-- dimensions in range, a valid scrollback, a bounded directory tracker, and subscribers that were each
-- given nothing or one `replay` frame and then only output, through a bounded queue; and a manager that is
-- shut has no session.
pub new_manager-IsGood :
    (conpty_spawn : PtyFactory) (o : Options) (xs : List Step)
    → IsGood (run_steps (new_manager conpty_spawn o) xs)
unfolding new_manager
new_manager-IsGood conpty_spawn o xs =
    run_steps-IsGood xs (new_manager conpty_spawn o)
      (record { distinct = tt; sound = tt; emptied = λ _. refl })
