-- ===== src/Session/Sound.antt =====
-- relay/internal/session/session.go: the invariant of a session, under every event.
use httpssh.Base.{ℕ, ◌≡◌, sym, subst, Bool, List, arith, if_cases, Text}
use httpssh.Ring.Contents.{IsValid}
use httpssh.Ring.Recent.{write-Holds}
use httpssh.Cwd.Chunks.{IsBounded}
use httpssh.Session.{
  Session, Pty, resize, publish_output, suppress, receive, kill, subscribe, remove_subscriber,
  write_input,
}
use httpssh.Session.Resize.{IsSized, resize-IsSized}
use httpssh.Session.Reach.{write_input_output, kill_output}
use httpssh.Session.Conformance.{apply-AllConform}
use httpssh.Session.Stream.{AllConform}
use httpssh.Session.History.{
  Event, publishes, takes, joins, leaves, ends, inputs, resizes, kills, renames, apply,
}

-- Dimensions in range, a valid scrollback, a bounded tracker, and subscribers that each got one replay
-- and then output, through bounded queues.
pub record IsSound (s : Session) : Type 0 where
  pub sized : IsSized s
  pub conform : AllConform s.clients
  pub ring : IsValid s.scrollback
  pub tracked : IsBounded s.cwd_tracker

suppress-scrollback :
    (s : Session) (p : Text) (now : ℕ) → (suppress s p now).0.scrollback ≡ s.scrollback
unfolding suppress
suppress-scrollback s p now = ground arith

publish_output-ring :
    (pick : ℕ → Bool) (s : Session) (p : Text) (paths : List Text) (now : ℕ)
    → IsValid s.scrollback
    → IsValid (publish_output pick s p paths now).scrollback
unfolding publish_output
publish_output-ring pick s p paths now v =
    let same : IsValid (suppress s p now).0.scrollback =
      subst IsValid (sym (suppress-scrollback s p now)) v in
    if_cases (λ (t : Session). IsValid t.scrollback) (suppress s p now).1 _ _ (λ _. same)
      (λ _. (write-Holds (suppress s p now).0.scrollback p same).valid)

pub apply-id : (e : Event) (s : Session) → (apply s e).id ≡ s.id
unfolding apply publish_output suppress receive remove_subscriber subscribe write_input resize kill
apply-id (publishes pick p paths now) s = ground arith
apply-id _ s = ground arith

apply-cwd_tracker : (e : Event) (s : Session) → (apply s e).cwd_tracker ≡ s.cwd_tracker
unfolding apply publish_output suppress receive remove_subscriber subscribe write_input resize kill
apply-cwd_tracker (publishes pick p paths now) s = ground arith
apply-cwd_tracker _ s = ground arith

apply-IsSized : (e : Event) (s : Session) → IsSized s → IsSized (apply s e)
unfolding apply publish_output suppress receive remove_subscriber subscribe write_input kill
apply-IsSized (resizes pty now cols rows) s h = resize-IsSized pty now s cols rows h
apply-IsSized _ s h = ground arith

resize-scrollback :
    (pty : Pty) (now : ℕ) (s : Session) (cols rows : ℕ)
    → (resize pty now s cols rows).0.scrollback ≡ s.scrollback
unfolding resize
resize-scrollback pty now s cols rows = ground arith

subscribe-scrollback :
    (s : Session) (ended : Bool) (role : Text) (now : ℕ)
    → (subscribe s ended role now).scrollback ≡ s.scrollback
unfolding subscribe
subscribe-scrollback s ended role now = ground arith

apply-ring : (e : Event) (s : Session) → IsValid s.scrollback → IsValid (apply s e).scrollback
unfolding apply
apply-ring (publishes pick p paths now) s v = publish_output-ring pick s p paths now v
apply-ring (takes i) s v = unfold receive in v
apply-ring (joins ended role now) s v =
    subst IsValid (sym (subscribe-scrollback s ended role now)) v
apply-ring (leaves i) s v = unfold remove_subscriber in v
apply-ring (ends i) s v = v
apply-ring (inputs pty now p) s v = subst IsValid (sym (write_input_output pty now s p).1) v
apply-ring (resizes pty now cols rows) s v =
    subst IsValid (sym (resize-scrollback pty now s cols rows)) v
apply-ring (kills pty) s v = subst IsValid (sym (kill_output pty s).1) v
apply-ring (renames title) s v = v

-- Every event keeps the invariant, and the session's id.
pub apply-IsSound : (e : Event) (s : Session) → IsSound s → IsSound (apply s e)
apply-IsSound e s h = record {
  sized = apply-IsSized e s h.sized;
  conform = apply-AllConform e s h.conform;
  ring = apply-ring e s h.ring;
  tracked = subst IsBounded (sym (apply-cwd_tracker e s)) h.tracked;
}
