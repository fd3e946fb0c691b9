-- ===== src/Session/Reach.antt =====
-- relay/internal/session/session.go: what one event gives to one subscriber and to the scrollback.
use httpssh.Base.{
  ℕ, ◌+◌, ◌≡◌, refl, sym, ap, ◌∙◌, inl, inr, Bool, true, false, none, some, List, [], ◌∷◌, ◌++◌,
  map, arith, ◌==◌, Bool-cases, get_elem?, append_assoc, append-nil, Text,
}
use httpssh.Protocol.{ServerFrame, out}
use httpssh.Ring.{write}
use httpssh.Ring.Recent.{write_all}
use httpssh.Session.{
  Session, Subscriber, Pty, write_input, publish_output, publish_to, receive, kill, subscribe,
  remove_subscriber, modify, dropped, take_frame, publish_each, last_or,
}
use httpssh.Session.Subscribers.{get_elem?-publish_each, get_elem?-modify, get_elem?-append_left}
use httpssh.Session.History.{
  Event, publishes, takes, joins, leaves, ends, inputs, resizes, kills, renames, cancelled_context,
  apply, chunks_of, IsResize, stream,
}

-- `c` became `c'`: who is on the list after was on it before, and got the frames `fs`.
abbrev pub Got : List ServerFrame → Subscriber → Subscriber → Type 0
Got fs c c' = c'.listed ≡ true → (c.listed ≡ true) × (stream c' ≡ stream c ++ fs)

-- The subscriber at place `i` of `cs`, after a step.
abbrev pub GotAt : ℕ → List ServerFrame → Subscriber → List Subscriber → Type 0
GotAt i fs c cs = (c' : Subscriber) × (get_elem? cs i ≡ some c') × Got fs c c'

pub Got-refl : (c : Subscriber) → Got [] c c
Got-refl c h = (h, sym (append-nil (stream c)))

pub Got-publish :
    (p : Text) (now : ℕ) (first : Bool) (c : Subscriber)
    → Got (out p ∷ []) c (publish_to false (out p) now first c)
unfolding publish_to
Got-publish p now first c h = ground (arith, append_assoc c.received c.out_queue (out p ∷ []))

pub take_frame-stream :
    (c : Subscriber) (q : List ServerFrame) → c.out_queue ≡ q → stream (take_frame c q) ≡ stream c
take_frame-stream c [] e = refl
take_frame-stream c (f ∷ fs) e = append_assoc c.received (f ∷ []) fs ∙ ap (◌++◌ c.received) (sym e)

pub take_frame-listed : (c : Subscriber) (q : List ServerFrame) → (take_frame c q).listed ≡ c.listed
take_frame-listed c [] = refl
take_frame-listed c (f ∷ fs) = refl

pub Got-take : (c : Subscriber) → Got [] c (take_frame c c.out_queue)
Got-take c h = (
  sym (take_frame-listed c c.out_queue) ∙ h,
  take_frame-stream c c.out_queue refl ∙ sym (append-nil (stream c)),
)

pub GotAt-modify :
    (i j : ℕ) (g : Subscriber → Subscriber) (cs : List Subscriber) {c : Subscriber}
    → get_elem? cs i ≡ some c
    → Got [] c (g c)
    → GotAt i [] c (modify j g cs)
GotAt-modify i j g cs {c} at got = elim (Bool-cases (j == i)) [
  | inl hit ↦ (g c, get_elem?-modify j i g cs at ∙ rw hit, got)
  | inr miss ↦ (c, get_elem?-modify j i g cs at ∙ rw miss, Got-refl c)
]

pub GotAt-same :
    (i : ℕ) (cs : List Subscriber) {c : Subscriber} → get_elem? cs i ≡ some c → GotAt i [] c cs
GotAt-same i cs {c} at = (c, at, Got-refl c)

abbrev pub frames_of : Event → List ServerFrame
frames_of e = map out (chunks_of e)

-- With no repaint window, a chunk goes to the scrollback and to everyone.
pub publish_output_calm :
    (pick : ℕ → Bool) (s : Session) (p : Text) (paths : List Text) (now : ℕ)
    → s.resize_repaint_until ≡ none
    → publish_output pick s p paths now ≡ record s {
      last_io = now;
      cwd = last_or s.cwd paths;
      scrollback = write s.scrollback p;
      clients = publish_each pick false (out p) now 0 s.clients;
    }
unfolding publish_output
publish_output_calm pick s p paths now calm = ground arith

-- Input and a kill leave the output side alone.
pub write_input_output :
    (pty : Pty) (now : ℕ) (s : Session) (p : Text)
    → ((write_input pty now s p).0.clients ≡ s.clients)
      × ((write_input pty now s p).0.scrollback ≡ s.scrollback)
      × ((write_input pty now s p).0.resize_repaint_until ≡ s.resize_repaint_until)
unfolding write_input
write_input_output pty now s p = ground arith

pub kill_output :
    (pty : Pty) (s : Session)
    → ((kill pty s).0.clients ≡ s.clients)
      × ((kill pty s).0.scrollback ≡ s.scrollback)
      × ((kill pty s).0.resize_repaint_until ≡ s.resize_repaint_until)
unfolding kill
kill_output pty s = ground arith

pub apply-GotAt :
    (e : Event) (s : Session) (i : ℕ) {c : Subscriber}
    → s.resize_repaint_until ≡ none
    → ¬ IsResize e
    → get_elem? s.clients i ≡ some c
    → GotAt i (frames_of e) c (apply s e).clients
unfolding apply
apply-GotAt (publishes pick p paths now) s i {c} calm nr at =
    rw (publish_output_calm pick s p paths now calm) (
      publish_to false (out p) now (pick (0 + i)) c,
      get_elem?-publish_each pick false (out p) now 0 i s.clients at,
      Got-publish p now (pick (0 + i)) c,
    )
apply-GotAt (takes j) s i {c} calm nr at =
    unfold receive in GotAt-modify i j (λ x. take_frame x x.out_queue) s.clients at (Got-take c)
apply-GotAt (joins ended role now) s i {c} calm nr at =
    unfold subscribe in
    elim (Bool-cases s.closed) [
      | inl shut ↦ rw shut (c, get_elem?-append_left s.clients _ i at, Got-refl c)
      | inr open_ ↦ rw open_ (c, get_elem?-append_left s.clients _ i at, Got-refl c)
    ]
apply-GotAt (leaves j) s i {c} calm nr at =
    unfold remove_subscriber in GotAt-modify i j dropped s.clients at (λ h. cc)
apply-GotAt (ends j) s i {c} calm nr at =
    GotAt-modify i j cancelled_context s.clients at (λ h. (h, sym (append-nil (stream c))))
apply-GotAt (inputs pty now p) s i {c} calm nr at =
    rw ((write_input_output pty now s p).0) (GotAt-same i s.clients at)
apply-GotAt (resizes pty now cols rows) s i calm nr at = absurd (nr tt)
apply-GotAt (kills pty) s i {c} calm nr at = rw ((kill_output pty s).0) (GotAt-same i s.clients at)
apply-GotAt (renames title) s i {c} calm nr at = GotAt-same i s.clients at

pub apply_calm :
    (e : Event) (s : Session)
    → s.resize_repaint_until ≡ none
    → ¬ IsResize e
    → ((apply s e).resize_repaint_until ≡ none)
      × ((apply s e).scrollback ≡ write_all s.scrollback (chunks_of e))
unfolding apply
apply_calm (publishes pick p paths now) s calm nr =
    rw (publish_output_calm pick s p paths now calm) (calm, refl)
apply_calm (takes j) s calm nr = unfold receive in (calm, refl)
apply_calm (joins ended role now) s calm nr = unfold subscribe in ground arith
apply_calm (leaves j) s calm nr = unfold remove_subscriber in (calm, refl)
apply_calm (ends j) s calm nr = (calm, refl)
apply_calm (inputs pty now p) s calm nr =
    ((write_input_output pty now s p).2 ∙ calm, (write_input_output pty now s p).1)
apply_calm (resizes pty now cols rows) s calm nr = absurd (nr tt)
apply_calm (kills pty) s calm nr = ((kill_output pty s).2 ∙ calm, (kill_output pty s).1)
apply_calm (renames title) s calm nr = (calm, refl)
