-- ===== src/Session/Keeping.antt =====
-- relay/internal/session/session.go: a client whose writer keeps up gets everything.
use httpssh.Base.{
  ℕ, zero, suc, ◌+◌, ◌-◌, ◌<◌, ◌≡◌, ◌≢◌, refl, sym, ap, ◌∙◌, subst, arith, Bool, true, false,
  false≢true, inl, inr, Bool-cases, if◌then◌else◌, none, some, List, [], ◌∷◌, ◌++◌, map, length,
  length-append, get_elem?, replicate, append-nil, ◌==◌, ==_iff, Text,
}
use httpssh.Protocol.{ServerFrame, out, replay}
use httpssh.Ring.{snapshot}
use httpssh.Session.{
  Session, Subscriber, default_subscriber_queue, deliver, publish_to, receive, subscribe,
  remove_subscriber, modify, dropped, take_frame,
}
use httpssh.Session.Subscribers.{
  get_elem?-publish_each, get_elem?-modify, get_elem?-append_left, get_elem?-length,
}
use httpssh.Session.History.{
  Event, publishes, takes, joins, leaves, ends, inputs, resizes, kills, renames, cancelled_context,
  apply, run, chunks, IsResize, NoResize, stream,
}
use httpssh.Session.Reach.{
  publish_output_calm, write_input_output, kill_output, apply_calm, take_frame-stream,
}
use httpssh.Session.Delivery.{joined, subscribe_open, run-subscribe}

-- The number of frames in the queue of the client at place `i` after an event, from `n` before.
abbrev pub queued_after : ℕ → ℕ → Event → ℕ
queued_after i n (publishes pick p paths now) = n + 1
queued_after i n (takes j) = if j == i then n - 1 else n
queued_after i n _ = n

-- An event that the client stays through: a chunk finds room in its queue, and it is not the client that
-- leaves or whose context ends.
abbrev pub StaysThrough : ℕ → ℕ → Event → Type 0
StaysThrough i n (publishes pick p paths now) = n < default_subscriber_queue
StaysThrough i n (leaves j) = j ≢ i
StaysThrough i n (ends j) = j ≢ i
StaysThrough i n _ = Unit {0}

abbrev pub KeepsUp : ℕ → ℕ → List Event → Type 0
KeepsUp i n [] = Unit {0}
KeepsUp i n (e ∷ es) = StaysThrough i n e × KeepsUp i (queued_after i n e) es

abbrev pub queued : ℕ → ℕ → List Event → ℕ
queued i n [] = n
queued i n (e ∷ es) = queued i (queued_after i n e) es

record Kept (n : ℕ) (c : Subscriber) : Type 0 where
  listed : c.listed ≡ true
  running : c.cancelled ≡ false
  full : length c.out_queue ≡ n

abbrev KeptAt : ℕ → ℕ → List Subscriber → Type 0
KeptAt i n cs = (c : Subscriber) × (get_elem? cs i ≡ some c) × Kept n c

publish_to-Kept :
    (f : ServerFrame) (now n : ℕ) (first : Bool) (c : Subscriber)
    → n < default_subscriber_queue
    → Kept n c
    → Kept (n + 1) (publish_to false f now first c)
unfolding publish_to deliver
publish_to-Kept f now n first c room k =
    let one = length-append c.out_queue (f ∷ []) in
    ground (arith, one, room, k.listed, k.running, k.full)

take_frame-Kept :
    (n : ℕ) (c : Subscriber) (q : List ServerFrame)
    → c.out_queue ≡ q
    → Kept n c
    → Kept (n - 1) (take_frame c q)
take_frame-Kept n c [] e k =
    ground (arith, ap (λ (q : List ServerFrame). length q) e, k.listed, k.running, k.full)
take_frame-Kept n c (f ∷ fs) e k =
    ground (arith, ap (λ (q : List ServerFrame). length q) e, k.listed, k.running, k.full)

modify-KeptAt :
    (i j m : ℕ) (g : Subscriber → Subscriber) (cs : List Subscriber)
    → (c : Subscriber) → get_elem? cs i ≡ some c
    → (j ≡ i → Kept m (g c))
    → (j ≢ i → Kept m c)
    → KeptAt i m (modify j g cs)
modify-KeptAt i j m g cs c at hit miss = elim (Bool-cases (j == i)) [
  | inl e ↦ (g c, get_elem?-modify j i g cs at ∙ rw e, hit ((==_iff j i).0 e))
  | inr e ↦
      (c, get_elem?-modify j i g cs at ∙ rw e, miss (λ z. false≢true (sym e ∙ (==_iff j i).1 z)))
]

apply-KeptAt :
    (e : Event) (s : Session) (i n : ℕ)
    → s.resize_repaint_until ≡ none
    → ¬ IsResize e
    → StaysThrough i n e
    → KeptAt i n s.clients
    → KeptAt i (queued_after i n e) (apply s e).clients
unfolding apply
apply-KeptAt (publishes pick p paths now) s i n calm nr stays (c, at, k) =
    rw (publish_output_calm pick s p paths now calm) (
      publish_to false (out p) now (pick (0 + i)) c,
      get_elem?-publish_each pick false (out p) now 0 i s.clients at,
      publish_to-Kept (out p) now n (pick (0 + i)) c stays k,
    )
apply-KeptAt (takes j) s i n calm nr stays (c, at, k) =
    unfold receive in
    modify-KeptAt i j (if j == i then n - 1 else n) (λ x. take_frame x x.out_queue) s.clients c at
      (λ e.
        subst (λ m. Kept m (take_frame c c.out_queue)) (rw ((==_iff j i).1 e) refl)
          (take_frame-Kept n c c.out_queue refl k))
      (λ ne. subst (λ m. Kept m c) (ground (arith, ne)) k)
apply-KeptAt (joins ended role now) s i n calm nr stays (c, at, k) =
    unfold subscribe in
    elim (Bool-cases s.closed) [
      | inl shut ↦ rw shut (c, get_elem?-append_left s.clients _ i at, k)
      | inr open_ ↦ rw open_ (c, get_elem?-append_left s.clients _ i at, k)
    ]
apply-KeptAt (leaves j) s i n calm nr stays (c, at, k) =
    unfold remove_subscriber in
    modify-KeptAt i j n dropped s.clients c at (λ e. absurd (stays e)) (λ ne. k)
apply-KeptAt (ends j) s i n calm nr stays (c, at, k) =
    modify-KeptAt i j n cancelled_context s.clients c at (λ e. absurd (stays e)) (λ ne. k)
apply-KeptAt (inputs pty now p) s i n calm nr stays k = rw ((write_input_output pty now s p).0) k
apply-KeptAt (resizes pty now cols rows) s i n calm nr stays k = absurd (nr tt)
apply-KeptAt (kills pty) s i n calm nr stays k = rw ((kill_output pty s).0) k
apply-KeptAt (renames title) s i n calm nr stays k = k

run-KeptAt :
    (es : List Event) (s : Session) (i n : ℕ)
    → s.resize_repaint_until ≡ none
    → NoResize es
    → KeepsUp i n es
    → KeptAt i n s.clients
    → KeptAt i (queued i n es) (run s es).clients
unfolding run
run-KeptAt [] s i n calm nr keeps k = k
run-KeptAt (e ∷ es) s i n calm (ne, nr) (stays, keeps) k =
    run-KeptAt es (apply s e) i (queued_after i n e) (apply_calm e s calm ne).0 nr keeps
      (apply-KeptAt e s i n calm ne stays k)

empty_queue : (q : List ServerFrame) → length q ≡ 0 → q ≡ []
empty_queue [] h = refl
empty_queue (f ∷ fs) h = absurd (omega (arith, h))

took_one :
    (n : ℕ) (c : Subscriber) (q : List ServerFrame)
    → c.out_queue ≡ q
    → length q ≡ suc n
    → length (take_frame c q).out_queue ≡ n
took_one n c [] e h = omega (arith, h)
took_one n c (f ∷ fs) e h = omega (arith, h)

-- The client at place `i` has received all that it was given.
abbrev pub ReceivedAt : ℕ → List ServerFrame → List Subscriber → Type 0
ReceivedAt i fs cs =
    (c : Subscriber) × (get_elem? cs i ≡ some c) × (c.received ≡ fs) × (c.out_queue ≡ [])

-- A queue of `n` frames is received by `n` takes.
run-takes :
    (n : ℕ) (s : Session) (i : ℕ) (c : Subscriber)
    → get_elem? s.clients i ≡ some c
    → length c.out_queue ≡ n
    → ReceivedAt i (stream c) (run s (replicate n (takes i))).clients
unfolding run apply
run-takes zero s i c at full =
    let nothing = empty_queue c.out_queue full in
    (c, at, sym (ap (λ q. c.received ++ q) nothing ∙ append-nil c.received), nothing)
run-takes (suc n) s i c at full =
    let d : Subscriber = take_frame c c.out_queue in
    let there : get_elem? (receive s i).clients i ≡ some d =
      unfold receive in
      get_elem?-modify i i (λ x. take_frame x x.out_queue) s.clients at
      ∙ rw ((==_iff i i).1 refl) refl in
    subst (λ fs. ReceivedAt i fs (run (receive s i) (replicate n (takes i))).clients)
      (take_frame-stream c c.out_queue refl)
      (run-takes n (receive s i) i d there (took_one n c c.out_queue refl full))

-- A client that joins an open session, under a context that is not done, and whose writer takes frames
-- often enough for its queue to have room for every chunk, stays on the list until it leaves or its context
-- ends; and once its writer has taken the frames that are still queued, it has received the scrollback of
-- the moment at which it joined and then every chunk read since, once and in order. (No resize window is
-- open, and none opens.)
pub run-ReceivedAt :
    (s : Session) (role : Text) (now : ℕ) (es : List Event)
    → s.closed ≡ false
    → s.resize_repaint_until ≡ none
    → NoResize es
    → KeepsUp (length s.clients) 1 es
    → let i = length s.clients in
      ReceivedAt i
        (replay (snapshot s.scrollback) ∷ map out (chunks es))
        (run (run (subscribe s false role now) es) (replicate (queued i 1 es) (takes i))).clients
run-ReceivedAt s role now es open_ calm nr keeps =
    let i : ℕ = length s.clients in
    let t : Session = subscribe s false role now in
    let first : KeptAt i 1 t.clients =
      subst (λ u. KeptAt i 1 u.clients) (sym (subscribe_open s false role now open_))
        (
          joined s false role now,
          get_elem?-length s.clients (joined s false role now),
          record { listed = refl; running = refl; full = refl },
        ) in
    let (c, at, k) =
      run-KeptAt es t i 1
        (ap (λ (u : Session). u.resize_repaint_until) (subscribe_open s false role now open_)
          ∙ calm)
        nr keeps first in
    let (d, found, got) = run-subscribe s false role now es open_ calm nr in
    let same : d ≡ c = some_same (sym found ∙ at) in
    subst (λ fs. ReceivedAt i fs (run (run t es) (replicate (queued i 1 es) (takes i))).clients)
      (ap stream (sym same) ∙ got (ap (λ (x : Subscriber). x.listed) same ∙ k.listed))
      (run-takes (queued i 1 es) (run t es) i c at k.full)
  where
    some_same : {x y : Subscriber} → some x ≡ some y → x ≡ y
    some_same q = cc
