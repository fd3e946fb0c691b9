-- ===== src/Session/Stream.antt =====
-- relay/internal/session/session.go: the frames and the queue of one subscriber.
use httpssh.Base.{
  ℕ, ◌≤◌, ◌≡◌, ◌≢◌, refl, sym, subst, Bool, true, false, not, ◌&&◌, ◌||◌, List, [], ◌∷◌, ◌++◌,
  arith, ltb→lt, if_cases, &&-left, length, length-append, append_assoc, Text,
}
use httpssh.Protocol.{ServerFrame, out, frame_out, frame_replay}
use httpssh.Session.{
  Subscriber, publish_to, is_fresh, has_room, enqueued, dropped, default_subscriber_queue,
}
use httpssh.Session.History.{stream}

-- Only `out` frames.
abbrev pub AllOut : List ServerFrame → Type 0
AllOut [] = Unit {0}
AllOut (f ∷ fs) = (f.t ≡ frame_out) × AllOut fs

-- One `replay` frame, then `out` frames; or nothing at all.
abbrev pub StartsWithReplay : List ServerFrame → Type 0
StartsWithReplay [] = Unit {0}
StartsWithReplay (f ∷ fs) = (f.t ≡ frame_replay) × AllOut fs

-- What holds of every subscriber: the frames that it was given, the bound of its queue, and that one on
-- the list has had its replay.
pub record Conforms (c : Subscriber) : Type 0 where
  pub ordered : StartsWithReplay (stream c)
  pub greeted : c.listed ≡ true → stream c ≢ []
  pub queue_bounded : length c.out_queue ≤ default_subscriber_queue

abbrev pub AllConform : List Subscriber → Type 0
AllConform [] = Unit {0}
AllConform (c ∷ cs) = Conforms c × AllConform cs

pub AllOut-out : (fs : List ServerFrame) (p : Text) → AllOut fs → AllOut (fs ++ (out p ∷ []))
AllOut-out [] p h = (refl, tt)
AllOut-out (f ∷ fs) p (x, h) = (x, AllOut-out fs p h)

pub StartsWithReplay-out :
    (fs : List ServerFrame) (p : Text)
    → fs ≢ []
    → StartsWithReplay fs
    → StartsWithReplay (fs ++ (out p ∷ []))
StartsWithReplay-out [] p ne h = absurd (ne refl)
StartsWithReplay-out (f ∷ fs) p ne (x, h) = (x, AllOut-out fs p h)

pub append-ne-nil : (fs : List ServerFrame) (f : ServerFrame) → fs ++ (f ∷ []) ≢ []
append-ne-nil [] f e = cc
append-ne-nil (g ∷ fs) f e = cc

pub Conforms-enqueued :
    (p : Text) (c : Subscriber)
    → c.listed ≡ true
    → has_room c ≡ true
    → Conforms c
    → Conforms (enqueued (out p) c)
Conforms-enqueued p c on room h =
    let e : stream c ++ (out p ∷ []) ≡ stream (enqueued (out p) c) =
      append_assoc c.received c.out_queue (out p ∷ []) in
    record {
      ordered =
          subst StartsWithReplay e (StartsWithReplay-out (stream c) p (h.greeted on) h.ordered);
      greeted = λ _. subst (λ fs. fs ≢ []) e (append-ne-nil (stream c) (out p));
      queue_bounded = omega (
        arith,
        length-append c.out_queue (out p ∷ []),
        ltb→lt (length c.out_queue) default_subscriber_queue room,
      );
    }

pub Conforms-dropped : (c : Subscriber) → Conforms c → Conforms (dropped c)
Conforms-dropped c h = record {
  ordered = h.ordered;
  greeted = λ e. cc;
  queue_bounded = h.queue_bounded;
}

pub not-false : (b : Bool) → not b ≡ false → b ≡ true
not-false true h = refl
not-false false h = sym h

pub Conforms-publish_to :
    (during : Bool) (p : Text) (now : ℕ) (first : Bool) (c : Subscriber)
    → Conforms c
    → Conforms (publish_to during (out p) now first c)
unfolding publish_to
Conforms-publish_to during p now first c h =
    if_cases Conforms (not c.listed) c _ (λ _. h)
      λ on.
        if_cases Conforms (during && is_fresh now c) c _ (λ _. h)
          λ _.
            if_cases Conforms (has_room c && (first || not c.cancelled)) (enqueued (out p) c)
              (dropped c)
              (λ sent. Conforms-enqueued p c (not-false c.listed on) (&&-left _ _ sent) h)
              (λ _. Conforms-dropped c h)
