-- ===== src/Session/Conformance.antt =====
-- relay/internal/session/session.go: the frames and the queue of every subscriber, under every event.
use httpssh.Base.{
  ℕ, zero, suc, ◌+◌, ◌≡◌, ◌≢◌, refl, sym, ap, ◌∙◌, subst, Bool, true, false, List, [], ◌∷◌, ◌++◌,
  arith, if◌then◌else◌, if_cases, length, append_assoc, Text,
}
use httpssh.Protocol.{ServerFrame, out, replay}
use httpssh.Ring.{snapshot}
use httpssh.Session.{
  Session, Subscriber, Pty, resize, publish_output, publish_each, suppress, modify, dropped,
  take_frame, receive, subscribe, remove_subscriber,
}
use httpssh.Session.Reach.{write_input_output, kill_output}
use httpssh.Session.History.{
  Event, publishes, takes, joins, leaves, ends, inputs, resizes, kills, renames, cancelled_context,
  apply, run, stream,
}
use httpssh.Session.Stream.{
  StartsWithReplay, Conforms, AllConform, Conforms-dropped, Conforms-publish_to,
}

pub AllConform-publish_each :
    (pick : ℕ → Bool) (during : Bool) (p : Text) (now i : ℕ) (cs : List Subscriber)
    → AllConform cs
    → AllConform (publish_each pick during (out p) now i cs)
unfolding publish_each
AllConform-publish_each pick during p now i [] h = tt
AllConform-publish_each pick during p now i (c ∷ cs) (x, h) = (
  Conforms-publish_to during p now (pick i) c x,
  AllConform-publish_each pick during p now (i + 1) cs h,
)

pub AllConform-modify :
    (i : ℕ) (g : Subscriber → Subscriber) (cs : List Subscriber)
    → ((c : Subscriber) → Conforms c → Conforms (g c))
    → AllConform cs
    → AllConform (modify i g cs)
unfolding modify
AllConform-modify i g [] k h = tt
AllConform-modify zero g (c ∷ cs) k (x, h) = (k c x, h)
AllConform-modify (suc i) g (c ∷ cs) k (x, h) = (x, AllConform-modify i g cs k h)

pub AllConform-append :
    (cs : List Subscriber) (c : Subscriber)
    → AllConform cs
    → Conforms c
    → AllConform (cs ++ (c ∷ []))
AllConform-append [] c h x = (x, tt)
AllConform-append (d ∷ cs) c (y, h) x = (y, AllConform-append cs c h x)

pub Conforms-take :
    (c : Subscriber) (q : List ServerFrame)
    → c.out_queue ≡ q
    → Conforms c
    → Conforms (take_frame c q)
Conforms-take c [] e h = h
Conforms-take c (f ∷ fs) e h =
    let same : stream c ≡ (c.received ++ (f ∷ [])) ++ fs =
      ap (◌++◌ c.received) e ∙ sym (append_assoc c.received (f ∷ []) fs) in
    record {
      ordered = subst StartsWithReplay same h.ordered;
      greeted = λ on. subst (λ t. t ≢ []) same (h.greeted on);
      queue_bounded = omega (arith, h.queue_bounded, ap length e);
    }

pub greeting : Text → Bool → Bool → Text → ℕ → Subscriber
greeting text shut ended role now =
    if shut
    then record {
      out_queue = [];
      received = [];
      cancelled = true;
      role = role;
      subscribed_at = now;
      listed = false;
    }
    else record {
      out_queue = replay text ∷ [];
      received = [];
      cancelled = ended;
      role = role;
      subscribed_at = now;
      listed = true;
    }

pub subscribe-clients :
    (s : Session) (ended : Bool) (role : Text) (now : ℕ)
    → (subscribe s ended role now).clients
      ≡ s.clients ++ (greeting (snapshot s.scrollback) s.closed ended role now ∷ [])
unfolding subscribe greeting
subscribe-clients s ended role now = ground arith

pub Conforms-greeting :
    (text : Text) (shut ended : Bool) (role : Text) (now : ℕ)
    → Conforms (greeting text shut ended role now)
unfolding greeting
Conforms-greeting text true ended role now = record {
  ordered = tt;
  greeted = λ e. cc;
  queue_bounded = omega arith;
}
Conforms-greeting text false ended role now = record {
  ordered = (refl, tt);
  greeted = λ _ e. cc;
  queue_bounded = omega arith;
}

pub suppress-clients : (s : Session) (p : Text) (now : ℕ) → (suppress s p now).0.clients ≡ s.clients
unfolding suppress
suppress-clients s p now = ground arith

pub publish_output-AllConform :
    (pick : ℕ → Bool) (s : Session) (p : Text) (paths : List Text) (now : ℕ)
    → AllConform s.clients
    → AllConform (publish_output pick s p paths now).clients
unfolding publish_output
publish_output-AllConform pick s p paths now h =
    let same : AllConform (suppress s p now).0.clients =
      subst AllConform (sym (suppress-clients s p now)) h in
    if_cases (λ (t : Session). AllConform t.clients) (suppress s p now).1 _ _ (λ _. same)
      (λ _. AllConform-publish_each pick _ p now 0 (suppress s p now).0.clients same)

pub resize-clients :
    (pty : Pty) (now : ℕ) (s : Session) (cols rows : ℕ)
    → (resize pty now s cols rows).0.clients ≡ s.clients
unfolding resize
resize-clients pty now s cols rows = ground arith

pub apply-AllConform :
    (e : Event) (s : Session) → AllConform s.clients → AllConform (apply s e).clients
unfolding apply
apply-AllConform (publishes pick p paths now) s h = publish_output-AllConform pick s p paths now h
apply-AllConform (takes i) s h =
    unfold receive in
    AllConform-modify i (λ c. take_frame c c.out_queue) s.clients
      (λ c. Conforms-take c c.out_queue refl) h
apply-AllConform (joins ended role now) s h =
    subst AllConform (sym (subscribe-clients s ended role now)) (
      AllConform-append s.clients _ h
        (Conforms-greeting (snapshot s.scrollback) s.closed ended role now))
apply-AllConform (leaves i) s h =
    unfold remove_subscriber in AllConform-modify i dropped s.clients Conforms-dropped h
apply-AllConform (ends i) s h =
    AllConform-modify i cancelled_context s.clients
      (λ c x. record { ordered = x.ordered; greeted = x.greeted; queue_bounded = x.queue_bounded })
      h
apply-AllConform (inputs pty now p) s h =
    subst AllConform (sym (write_input_output pty now s p).0) h
apply-AllConform (resizes pty now cols rows) s h =
    subst AllConform (sym (resize-clients pty now s cols rows)) h
apply-AllConform (kills pty) s h = subst AllConform (sym (kill_output pty s).0) h
apply-AllConform (renames title) s h = h

-- Whatever happens to a running session whose subscribers keep the invariant, resizes included, they all
-- keep it: each was given nothing at all, or exactly one `replay` frame, first, and only `out` frames
-- behind it; no queue is longer than 256 frames; and one that is on the list has had its replay.
pub run-AllConform :
    (es : List Event) (s : Session) → AllConform s.clients → AllConform (run s es).clients
unfolding run
run-AllConform [] s h = h
run-AllConform (e ∷ es) s h = run-AllConform es (apply s e) (apply-AllConform e s h)
