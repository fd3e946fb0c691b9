-- ===== src/Manager/Shells.antt =====
-- relay/internal/session/manager.go: what `Create` reads of the shell resolver.
use httpssh.Base.{
  ℕ, ◌≡◌, refl, ap, ◌∙◌, Bool, true, false, ◌||◌, Option, none, some, List, Text, ltb, arith,
  if◌then◌else◌, if_cases, false≢true, sym,
}
use httpssh.Session.{Session, Error, max_cols, max_rows}
use httpssh.Manager.{
  Result, ok, err, Manager, Moment, Request, ShellResolver, create, create_resolved, create_spawned,
  register, resolve, answer_of, or_number, new_session,
}

abbrev pub with_shells : Manager → ShellResolver → Manager
with_shells m f = record m { opts = record m.opts { shells = some f } }

if_alike :
    (b : Bool) (x y x' y' : Manager × Result Session)
    → x.1 ≡ x'.1
    → y.1 ≡ y'.1
    → (if b then x else y).1 ≡ (if b then x' else y').1
if_alike true x y x' y' h k = h
if_alike false x y x' y' h k = k

register_alike :
    (m m' : Manager) (s : Session) → m.closed ≡ m'.closed → (register m s).1 ≡ (register m' s).1
unfolding register
register_alike m m' s h = ground (arith, h)

-- The answer of `Create` behind the spawn depends on whether the manager is shut, on nothing else of it.
create_spawned_alike :
    (m m' : Manager) (s : Session) (args : List Text) (answer : Option Error)
    → m.closed ≡ m'.closed
    → (create_spawned m s args answer).1 ≡ (create_spawned m' s args answer).1
unfolding create_spawned
create_spawned_alike m m' s args (some e) h = refl
create_spawned_alike m m' s args none h = register_alike _ _ s h

module _ (at : Moment) (m : Manager) (f g : ShellResolver) (req : Request) where
  create_resolved_alike :
      (cols rows : ℕ) (r : Result (Text × List Text))
      → (create_resolved at (with_shells m f) req cols rows r).1
        ≡ (create_resolved at (with_shells m g) req cols rows r).1
  unfolding create_resolved new_session answer_of
  create_resolved_alike cols rows (err e) = refl
  create_resolved_alike cols rows (ok (exe, args)) =
      create_spawned_alike (with_shells m f) (with_shells m g)
        (new_session m.opts at req exe cols rows) args (answer_of m.opts.spawn exe args cols rows)
        refl

  -- Two resolvers that agree on the requested name lead to the same answer.
  pub create_alike :
      f req.shell ≡ g req.shell
      → (create at (with_shells m f) req).1 ≡ (create at (with_shells m g) req).1
  unfolding create resolve
  create_alike h =
      if_alike (ltb max_cols (or_number req.cols 80) || ltb max_rows (or_number req.rows 24)) _ _ _
        _ refl
        (create_resolved_alike (or_number req.cols 80) (or_number req.rows 24) (f req.shell)
          ∙ ap
              (λ r.
                (create_resolved at (with_shells m g) req (or_number req.cols 80)
                  (or_number req.rows 24) r).1)
              h)

-- Where the shell does not resolve, `Create` stops there.
pub create_unresolved :
    (at : Moment) (m : Manager) (f : ShellResolver) (req : Request) (e : Error)
    → f req.shell ≡ err e
    → (ltb max_cols (or_number req.cols 80) || ltb max_rows (or_number req.rows 24)) ≡ false
    → create at (with_shells m f) req ≡ (with_shells m f, err e)
unfolding create resolve
create_unresolved at m f req e h fits =
    if_cases (λ p. p ≡ (with_shells m f, err e))
      (ltb max_cols (or_number req.cols 80) || ltb max_rows (or_number req.rows 24)) _ _
      (λ x. absurd (false≢true (sym fits ∙ x)))
      (λ _.
        ap
          (create_resolved at (with_shells m f) req (or_number req.cols 80) (or_number req.rows 24))
          h
        ∙ unfold create_resolved in refl)
