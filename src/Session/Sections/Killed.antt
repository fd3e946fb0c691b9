-- ===== src/Session/Sections/Killed.antt =====
-- relay/internal/session/session.go: what `Kill` leaves to the methods that have passed their check.
use mathlib.Core.List.{Perm, perm_append_comm}
use mathlib.Core.List.Perm
use httpssh.Base.{
  ℕ, zero, suc, ◌≡◌, refl, sym, ap, ◌∙◌, subst, if_cases, false≢true, true, false, Option, none,
  some, List, [], ◌∷◌, ◌++◌, append_assoc, append-nil, Text,
}
use httpssh.Session.{Session, Pty, PtyCall, pty_close, Error, bad_dimensions}
use httpssh.Session.Lifecycle.{apply-closed, apply_quiet}
use httpssh.Session.Sections.{
  Flight, write_checked, resize_checked, close_checked, write_called, resize_called, over, Shared,
  Section, begins_write, begins_resize, begins_kill, calls_pty, commits, whole, takes_off,
  begin_write, begin_resize, begin_kill, call_of, called, unless_failed, call_pty_at, committed,
  landed, commit_at, apply_section, run_sections,
}

-- The calls that are yet to come.
abbrev pub pending : List Flight → List PtyCall
pending [] = []
pending (f ∷ fs) = call_of f ++ pending fs

pending-append : (fs gs : List Flight) → pending (fs ++ gs) ≡ pending fs ++ pending gs
pending-append [] gs = refl
pending-append (f ∷ fs) gs =
    ap (◌++◌ (call_of f)) (pending-append fs gs)
    ∙ sym (append_assoc (call_of f) (pending fs) (pending gs))

call_of-called : (pty : Pty) (f : Flight) → call_of (called pty f) ≡ []
call_of-called pty (write_checked p) = failed (pty.write_answer p)
  where
    failed : (o : Option Error) → call_of (unless_failed o write_called) ≡ []
    failed none = refl
    failed (some e) = refl
call_of-called pty (resize_checked c r) = failed (pty.resize_answer c r)
  where
    failed : (o : Option Error) → call_of (unless_failed o (resize_called c r)) ≡ []
    failed none = refl
    failed (some e) = refl
call_of-called pty close_checked = refl
call_of-called pty write_called = refl
call_of-called pty (resize_called c r) = refl
call_of-called pty over = refl

call_of-landed : (f : Flight) → call_of (landed f) ≡ call_of f
call_of-landed (write_checked p) = refl
call_of-landed (resize_checked c r) = refl
call_of-landed close_checked = refl
call_of-landed write_called = refl
call_of-landed (resize_called c r) = refl
call_of-landed over = refl

Perm_swap : (a b c : List PtyCall) → Perm (a ++ (b ++ c)) (b ++ (a ++ c))
Perm_swap a b c =
    subst (λ cs. Perm cs (b ++ (a ++ c))) (append_assoc a b c)
      (subst (λ cs. Perm ((a ++ b) ++ c) cs) (append_assoc b a c)
        (Perm.append_right c (perm_append_comm a b)))

-- A call is taken from those that are yet to come.
call_pty_at-Perm :
    (pty : Pty) (i : ℕ) (fs : List Flight)
    → Perm ((call_pty_at pty i fs).0 ++ pending (call_pty_at pty i fs).1) (pending fs)
unfolding call_pty_at
call_pty_at-Perm pty i [] = Perm.rfl
call_pty_at-Perm pty zero (f ∷ fs) =
    subst (λ cs. Perm (call_of f ++ (cs ++ pending fs)) (call_of f ++ pending fs))
      (sym (call_of-called pty f)) Perm.rfl
call_pty_at-Perm pty (suc i) (f ∷ fs) =
    let (cs, rest) = call_pty_at pty i fs in
    Perm.trans (Perm_swap cs (call_of f) (pending rest))
      (Perm.append_left (call_of f) (call_pty_at-Perm pty i fs))

pending-commit_at :
    (now i : ℕ) (s : Session) (fs : List Flight)
    → (pending (commit_at now i s fs).flights ≡ pending fs)
      × ((commit_at now i s fs).session.closed ≡ s.closed)
      × ((commit_at now i s fs).session.pty_calls ≡ s.pty_calls)
unfolding commit_at
pending-commit_at now i s [] = (refl, refl, refl)
pending-commit_at now zero s (f ∷ fs) =
    let (shut, calls) = committed-keeps now s f in
    (ap (λ cs. cs ++ pending fs) (call_of-landed f), shut, calls)
  where
    committed-keeps :
        (now : ℕ) (s : Session) (f : Flight)
        → ((committed now s f).closed ≡ s.closed) × ((committed now s f).pty_calls ≡ s.pty_calls)
    committed-keeps now s (write_checked p) = (refl, refl)
    committed-keeps now s (resize_checked c r) = (refl, refl)
    committed-keeps now s close_checked = (refl, refl)
    committed-keeps now s write_called = (refl, refl)
    committed-keeps now s (resize_called c r) = (refl, refl)
    committed-keeps now s over = (refl, refl)
pending-commit_at now (suc i) s (f ∷ fs) =
    let (same, shut, calls) = pending-commit_at now i s fs in
    (ap (◌++◌ (call_of f)) same, shut, calls)

-- `x` became `y`: it stays closed, and what it called in between was yet to come before.
abbrev pub Drains : Shared → Shared → Type 0
Drains x y =
    (y.session.closed ≡ true)
    × ((calls : List PtyCall) × (y.session.pty_calls ≡ x.session.pty_calls ++ calls)
        × Perm (calls ++ pending y.flights) (pending x.flights))

Drains-still :
    (x y : Shared)
    → y.session.closed ≡ true
    → y.session.pty_calls ≡ x.session.pty_calls
    → pending y.flights ≡ pending x.flights
    → Drains x y
Drains-still x y shut calls same = (
  shut,
  (
    [],
    (calls ∙ sym (append-nil x.session.pty_calls)),
    subst (λ cs. Perm (pending y.flights) cs) same Perm.rfl,
  ),
)

begin_write_closed : (x : Shared) (p : Text) → x.session.closed ≡ true → begin_write x p ≡ x
unfolding begin_write
begin_write_closed x p shut =
    if_cases (λ y. y ≡ x) x.session.closed _ _ (λ _. refl) (λ z. absurd (false≢true (sym z ∙ shut)))

begin_resize_closed :
    (x : Shared) (cols rows : ℕ) → x.session.closed ≡ true → begin_resize x cols rows ≡ x
unfolding begin_resize
begin_resize_closed x cols rows shut =
    if_cases (λ y. y ≡ x) (bad_dimensions cols rows) _ _ (λ _. refl)
      (λ _.
        if_cases (λ y. y ≡ x) x.session.closed _ _ (λ _. refl)
          (λ z. absurd (false≢true (sym z ∙ shut))))

begin_kill_closed : (x : Shared) → x.session.closed ≡ true → begin_kill x ≡ x
unfolding begin_kill
begin_kill_closed x shut =
    if_cases (λ y. y ≡ x) x.session.closed _ _ (λ _. refl) (λ z. absurd (false≢true (sym z ∙ shut)))

Drains-same : (x y : Shared) → x.session.closed ≡ true → y ≡ x → Drains x y
Drains-same x y shut e = subst (Drains x) (sym e) (Drains-still x x shut refl refl)

apply_section-Drains :
    (x : Shared) (c : Section) → x.session.closed ≡ true → Drains x (apply_section x c)
unfolding apply_section
apply_section-Drains x (begins_write p) shut = Drains-same x _ shut (begin_write_closed x p shut)
apply_section-Drains x (begins_resize c r) shut =
    Drains-same x _ shut (begin_resize_closed x c r shut)
apply_section-Drains x begins_kill shut = Drains-same x _ shut (begin_kill_closed x shut)
apply_section-Drains x (calls_pty pty i) shut =
    (shut, ((call_pty_at pty i x.flights).0, refl, call_pty_at-Perm pty i x.flights))
apply_section-Drains x (commits now i) shut =
    let (same, closed, calls) = pending-commit_at now i x.session x.flights in
    Drains-still x (apply_section x (commits now i)) (closed ∙ shut) calls same
apply_section-Drains x (whole e) shut =
    Drains-still x (apply_section x (whole e)) (apply-closed e x.session shut)
      (apply_quiet e x.session shut) refl

run_sections-Drains :
    (cs : List Section) (x : Shared) → x.session.closed ≡ true → Drains x (run_sections x cs)
unfolding run_sections
run_sections-Drains [] x shut = Drains-still x x shut refl refl
run_sections-Drains (c ∷ cs) x shut =
    let (shut₁, (first, calls₁, perm₁)) = apply_section-Drains x c shut in
    let (shut₂, (rest, calls₂, perm₂)) = run_sections-Drains cs (apply_section x c) shut₁ in
    (
      shut₂,
      (
        first ++ rest,
        calls₂ ∙ ap (λ ds. ds ++ rest) calls₁ ∙ append_assoc x.session.pty_calls first rest,
        subst (λ ds. Perm ds (pending x.flights)) (sym (append_assoc first rest _))
            (Perm.trans (Perm.append_left first perm₂) perm₁),
      ),
    )

begin_kill_open :
    (x : Shared)
    → x.session.closed ≡ false
    → begin_kill x
      ≡ takes_off (record x { session = record x.session { closed = true } }) close_checked
unfolding begin_kill
begin_kill_open x running =
    if_cases
      (λ y. y ≡ takes_off (record x { session = record x.session { closed = true } }) close_checked)
      x.session.closed _ _ (λ z. absurd (false≢true (sym running ∙ z))) (λ _. refl)

-- Once `Kill` has marked an open session closed, it stays closed, and the pseudo-console is called only
-- for what was past its check by then, each once at most, and once at most to close it: whatever
-- sections of `WriteInput`, `Resize`, `Kill` and of the other methods follow, in any order, the calls
-- that they make and those that are yet to come are together those that were yet to come, and the close.
pub run_sections-begin_kill :
    (x : Shared) (cs : List Section)
    → x.session.closed ≡ false
    → let y = run_sections x (begins_kill ∷ cs) in
      (y.session.closed ≡ true)
      × ((calls : List PtyCall) × (y.session.pty_calls ≡ x.session.pty_calls ++ calls)
          × Perm (calls ++ pending y.flights) (pending x.flights ++ (pty_close ∷ [])))
unfolding run_sections apply_section begin_kill
run_sections-begin_kill x cs running =
    subst P (sym (begin_kill_open x running)) (drained (run_sections-Drains cs marked refl))
  where
    marked : Shared
    marked = takes_off (record x { session = record x.session { closed = true } }) close_checked

    P : Shared → Type 0
    P z =
        ((run_sections z cs).session.closed ≡ true)
        × ((calls : List PtyCall) × ((run_sections z cs).session.pty_calls
              ≡ x.session.pty_calls ++ calls)
            × Perm (calls ++ pending (run_sections z cs).flights)
                (pending x.flights ++ (pty_close ∷ [])))

    drained : Drains marked (run_sections marked cs) → P marked
    drained (shut, (calls, made, perm)) = (
      shut,
      (
        calls,
        made,
        subst (Perm (calls ++ pending (run_sections marked cs).flights))
            (pending-append x.flights (close_checked ∷ [])) perm,
      ),
    )
