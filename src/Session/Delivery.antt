-- ===== src/Session/Delivery.antt =====
-- relay/internal/session/session.go: what a subscriber gets of the shell's output.
use httpssh.Base.{
  ℕ, ◌≡◌, refl, sym, ap, ◌∙◌, Bool, true, false, none, some, List, [], ◌∷◌, ◌++◌, map, arith,
  length, get_elem?, concat, append_assoc, Text,
}
use httpssh.Protocol.{ServerFrame, out, replay}
use httpssh.Ring.{RingBuffer, write, snapshot, capacity}
use httpssh.Ring.Contents.{IsValid, take_last}
use httpssh.Ring.Recent.{write_all, write_all-IsValid}
use httpssh.Session.{Session, Subscriber, subscribe}
use httpssh.Session.Subscribers.{get_elem?-length}
use httpssh.Session.History.{Event, apply, run, chunks_of, chunks, NoResize, stream}
use httpssh.Session.Reach.{GotAt, GotAt-same, apply-GotAt, apply_calm}

write_all-append :
    (r : RingBuffer) (ps qs : List Text) → write_all r (ps ++ qs) ≡ write_all (write_all r ps) qs
write_all-append r [] qs = refl
write_all-append r (p ∷ ps) qs = write_all-append (write r p) ps qs

run_scrollback :
    (es : List Event) (s : Session)
    → s.resize_repaint_until ≡ none
    → NoResize es
    → (run s es).scrollback ≡ write_all s.scrollback (chunks es)
unfolding run
run_scrollback [] s calm nr = refl
run_scrollback (e ∷ es) s calm (n, nr) =
    let (calm', now) = apply_calm e s calm n in
    run_scrollback es (apply s e) calm' nr
    ∙ ap (λ r. write_all r (chunks es)) now
    ∙ sym (write_all-append s.scrollback (chunks_of e) (chunks es))

map-append : (ps qs : List Text) → map out (ps ++ qs) ≡ map out ps ++ map out qs
map-append [] qs = refl
map-append (p ∷ ps) qs = ap (◌∷◌ (out p)) (map-append ps qs)

run-GotAt :
    (es : List Event) (s : Session) (i : ℕ) {c : Subscriber}
    → s.resize_repaint_until ≡ none
    → NoResize es
    → get_elem? s.clients i ≡ some c
    → GotAt i (map out (chunks es)) c (run s es).clients
unfolding run
run-GotAt [] s i calm nr at = GotAt-same i s.clients at
run-GotAt (e ∷ es) s i {c} calm (n, nr) at =
    let (c₁, at₁, got₁) = apply-GotAt e s i calm n at in
    let (c₂, at₂, got₂) = run-GotAt es (apply s e) i (apply_calm e s calm n).0 nr at₁ in
    (
      c₂,
      at₂,
      λ h.
          let (l₁, e₁) = got₂ h in
          let (l, e₀) = got₁ l₁ in
          (
            l,
            e₁
                ∙ ap (λ t. t ++ map out (chunks es)) e₀
                ∙ append_assoc (stream c) (map out (chunks_of e)) (map out (chunks es))
                ∙ ap (◌++◌ (stream c)) (sym (map-append (chunks_of e) (chunks es))),
          ),
    )

-- A client as `Subscribe` puts it on the list of an open session.
abbrev pub joined : Session → Bool → Text → ℕ → Subscriber
joined s ended role now = record {
  out_queue = replay (snapshot s.scrollback) ∷ [];
  received = [];
  cancelled = ended;
  role = role;
  subscribed_at = now;
  listed = true;
}

pub subscribe_open :
    (s : Session) (ended : Bool) (role : Text) (now : ℕ)
    → s.closed ≡ false
    → subscribe s ended role now
      ≡ record s { clients = s.clients ++ (joined s ended role now ∷ []) }
unfolding subscribe
subscribe_open s ended role now h = ground arith

-- A client that joins an open session and is still on the list when the events `es` are over has been
-- given one `replay` frame with the scrollback of that moment, then one `out` frame for each chunk read
-- since, in order, none twice and none left out, however reads, input, kills and other clients come in
-- between. (No resize window is open, and none opens.)
pub run-subscribe :
    (s : Session) (ended : Bool) (role : Text) (now : ℕ) (es : List Event)
    → s.closed ≡ false
    → s.resize_repaint_until ≡ none
    → NoResize es
    → (c : Subscriber) × (get_elem? (run (subscribe s ended role now) es).clients (length s.clients)
        ≡ some c)
      × (c.listed ≡ true → stream c ≡ replay (snapshot s.scrollback) ∷ map out (chunks es))
run-subscribe s ended role now es open_ calm nr =
    let t : Session = record s { clients = s.clients ++ (joined s ended role now ∷ []) } in
    let (c, at, got) =
      run-GotAt es t (length s.clients) calm nr
        (get_elem?-length s.clients (joined s ended role now)) in
    rw (subscribe_open s ended role now open_) (c, at, λ h. (got h).1)

-- The text of a frame.
abbrev pub shown : List ServerFrame → Text
shown [] = []
shown (f ∷ fs) = f.d ++ shown fs

shown-out : (ps : List Text) → shown (map out ps) ≡ concat ps
shown-out [] = refl
shown-out (p ∷ ps) = ap (◌++◌ p) (shown-out ps)

-- Of a client that joined an open session and is still on the list when the events `es` are over, the
-- newest bytes that it was sent, as many as the scrollback takes, are the scrollback: a client that
-- stayed and one that joins now see the same text. (No resize window is open, and none opens.)
pub shown-scrollback :
    (s : Session) (ended : Bool) (role : Text) (now : ℕ) (es : List Event)
    → s.closed ≡ false
    → s.resize_repaint_until ≡ none
    → NoResize es
    → IsValid s.scrollback
    → let t = run (subscribe s ended role now) es in
      (c : Subscriber) × (get_elem? t.clients (length s.clients) ≡ some c)
      × (c.listed ≡ true
          → snapshot t.scrollback ≡ take_last (capacity s.scrollback) (shown (stream c)))
shown-scrollback s ended role now es open_ calm nr v =
    let (c, at, got) = run-subscribe s ended role now es open_ calm nr in
    let t : Session = record s { clients = s.clients ++ (joined s ended role now ∷ []) } in
    (
      c,
      at,
      λ h.
          ap (λ u. snapshot (run u es).scrollback) (subscribe_open s ended role now open_)
          ∙ ap snapshot (run_scrollback es t calm nr)
          ∙ (write_all-IsValid s.scrollback (chunks es) v).contents
          ∙ ap (λ x. take_last (capacity s.scrollback) (snapshot s.scrollback ++ x))
              (sym (shown-out (chunks es)))
          ∙ ap (λ x. take_last (capacity s.scrollback) (shown x)) (sym (got h)),
    )
