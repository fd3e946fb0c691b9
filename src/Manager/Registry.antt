-- ===== src/Manager/Registry.antt =====
-- relay/internal/session/manager.go: `Create` and `Get` against the map of sessions.
use httpssh.Base.{
  ℕ, ◌≤◌, ◌≡◌, ◌≢◌, refl, sym, ap, ◌∙◌, subst, ◌⊎◌, inl, inr, true, false, ◌||◌, Option, none, some,
  List, [], ◌∷◌, ◌++◌, arith, ltb, if_cases, Text, lookup, insert, lookup-insert_self,
  lookup-insert_ne,
}
use httpssh.Session.{Session, Error, invalid_dimensions, max_cols, max_rows}
use httpssh.Ring.Contents.{new_ring_buffer-IsValid}
use httpssh.Session.Resize.{IsSized}
use httpssh.Session.Sound.{IsSound}
use httpssh.Manager.{
  Result, ok, err, Manager, Options, HostCall, host_opened, host_close, Moment, Request, create,
  create_resolved, create_spawned, get, new_session, or_number, resolve, or_not_found,
}

-- What `Create` comes to: a new session under its id and nothing else changed, or an error with the
-- sessions as they were and every pseudo-console that was made for it closed again.
pub data Created (at : Moment) (m : Manager) : Manager × Result Session → Type 0 where
  made :
      (s : Session) (args : List Text)
      → m.closed ≡ false
      → s.id ≡ at.new_id
      → s.closed ≡ false
      → IsSound s
      → Created at m (
        record m {
          by_id = insert s.id s m.by_id;
          host_calls = m.host_calls ++ (host_opened s.shell args s.cols s.rows ∷ []);
        },
        ok s,
      )
  refused : (e : Error) → Created at m (m, err e)
  undone :
      (e : Error) (exe : Text) (args : List Text) (cols rows : ℕ)
      → m.closed ≡ true
      → Created at m (
        record m {
          host_calls = (m.host_calls ++ (host_opened exe args cols rows ∷ [])) ++ (host_close ∷ []);
        },
        err e,
      )

Created-spawned :
    (at : Moment) (m : Manager) (s : Session) (args : List Text) (answer : Option Error)
    → s.id ≡ at.new_id
    → s.closed ≡ false
    → IsSound s
    → Created at m (create_spawned m s args answer)
unfolding create_spawned
Created-spawned at m s args (some e) i o z = refused _
Created-spawned at m s args none i o z =
    if_cases (Created at m) m.closed _ _ (λ shut. undone _ s.shell args s.cols s.rows shut)
      (λ open_. made s args open_ i o z)

new_session-IsSound :
    (o : Options) (at : Moment) (req : Request) (exe : Text) (cols rows : ℕ)
    → (1 ≤ cols) × (cols ≤ 500) × (1 ≤ rows) × (rows ≤ 200)
    → IsSound (new_session o at req exe cols rows)
unfolding new_session
new_session-IsSound o at req exe cols rows z = record {
  sized = z;
  conform = tt;
  ring = new_ring_buffer-IsValid o.scrollback_bytes;
  tracked = omega arith;
}

Created-resolved :
    (at : Moment) (m : Manager) (req : Request) (cols rows : ℕ) (r : Result (Text × List Text))
    → (1 ≤ cols) × (cols ≤ 500) × (1 ≤ rows) × (rows ≤ 200)
    → Created at m (create_resolved at m req cols rows r)
unfolding create_resolved
Created-resolved at m req cols rows (err e) z = refused e
Created-resolved at m req cols rows (ok (exe, args)) z =
    Created-spawned at m (new_session m.opts at req exe cols rows) args _ refl refl
      (new_session-IsSound m.opts at req exe cols rows z)

in_range :
    (cols rows : ℕ)
    → (ltb max_cols (or_number cols 80) || ltb max_rows (or_number rows 24)) ≡ false
    → (1 ≤ or_number cols 80)
      × (or_number cols 80 ≤ 500)
      × (1 ≤ or_number rows 24)
      × (or_number rows 24 ≤ 200)
in_range cols rows h = ground arith

pub create-Created : (at : Moment) (m : Manager) (req : Request) → Created at m (create at m req)
unfolding create
create-Created at m req =
    let cols = or_number req.cols 80 in
    let rows = or_number req.rows 24 in
    if_cases (Created at m) (ltb max_cols cols || ltb max_rows rows) (m, err invalid_dimensions)
      (create_resolved at m req cols rows (resolve m.opts.shells req.shell))
      (λ _. refused invalid_dimensions)
      (λ fits.
        Created-resolved at m req cols rows (resolve m.opts.shells req.shell)
          (in_range req.cols req.rows fits))

abbrev FoundAs : Moment → Manager → Manager → Session → Type 0
FoundAs at m m' s =
    (get m' at.new_id ≡ ok s)
    × ((k : Text) → k ≢ at.new_id → get m' k ≡ get m k)
    × IsSized s
    × (s.closed ≡ false)
    × (m.closed ≡ false)

FoundAs-insert :
    (at : Moment) (m m' : Manager) (s : Session)
    → m'.by_id ≡ insert s.id s m.by_id
    → s.id ≡ at.new_id
    → IsSized s
    → s.closed ≡ false
    → m.closed ≡ false
    → FoundAs at m m' s
unfolding get
FoundAs-insert at m m' s e i z c o = (
  ap or_not_found (
      ap (lookup at.new_id) e
      ∙ ap (λ k. lookup k (insert s.id s m.by_id)) (sym i)
      ∙ lookup-insert_self s.id s m.by_id),
  (λ k ne.
      ap or_not_found
        (ap (lookup k) e ∙ lookup-insert_ne s.id k s m.by_id (λ same. ne (sym same ∙ i)))),
  z,
  c,
  o,
)

-- A session that `Create` returns is found under its new id, open and with dimensions in range; every
-- other id leads where it did; and the manager was not shutting down.
pub create_ok :
    (at : Moment) (m : Manager) (req : Request) {s : Session}
    → (create at m req).1 ≡ ok s
    → (get (create at m req).0 at.new_id ≡ ok s)
      × ((k : Text) → k ≢ at.new_id → get (create at m req).0 k ≡ get m k)
      × IsSized s
      × (s.closed ≡ false)
      × (m.closed ≡ false)
create_ok at m req {s} = from (create at m req) (create-Created at m req)
  where
    from : (r : Manager × Result Session) → Created at m r → r.1 ≡ ok s → FoundAs at m r.0 s
    from r (made t args o i c z) e =
        let same : t ≡ s = cc in
        subst (FoundAs at m r.0) same (FoundAs-insert at m r.0 t refl i z.sized c o)
    from r (refused x) e = cc
    from r (undone x exe args cols rows o) e = cc

-- A session that could not be made leaves the sessions as they were, and no pseudo-console open: none
-- was made for it, or the one that was made is closed again.
pub create_err :
    (at : Moment) (m : Manager) (req : Request) {e : Error}
    → (create at m req).1 ≡ err e
    → ((create at m req).0.by_id ≡ m.by_id)
      × (((create at m req).0.host_calls ≡ m.host_calls)
          ⊎ ((c : HostCall) × ((create at m req).0.host_calls
                ≡ (m.host_calls ++ (c ∷ [])) ++ (host_close ∷ []))))
create_err at m req {e} = from (create at m req) (create-Created at m req)
  where
    from :
        (r : Manager × Result Session)
        → Created at m r
        → r.1 ≡ err e
        → (r.0.by_id ≡ m.by_id)
          × ((r.0.host_calls ≡ m.host_calls)
              ⊎ ((c : HostCall) × (r.0.host_calls
                    ≡ (m.host_calls ++ (c ∷ [])) ++ (host_close ∷ []))))
    from r (made t args o i c z) h = cc
    from r (refused x) h = (refl, inl refl)
    from r (undone x exe args cols rows o) h = (refl, inr (host_opened exe args cols rows, refl))
