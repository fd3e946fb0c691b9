-- ===== src/Manager/Reaper.antt =====
-- relay/internal/session/manager.go: `reapOnce`.
use httpssh.Base.{
  ℕ, ◌+◌, ◌≤◌, ◌<◌, ◌≡◌, refl, sym, ap, ◌∙◌, subst, ◌⊎◌, inl, inr, Bool, true, false, ◌||◌, none,
  some, List, [], ◌∷◌, pos, arith, if◌then◌else◌, if_cases, Bool-cases, Text, str_eq, str_eq_iff,
  Table, lookup, lookup-delete, Every, Distinct, to_nat,
}
use httpssh.Session.{Session, Pty, count_listed, not_found}
use httpssh.Manager.{
  ok, err, Manager, get, or_not_found, is_stale, candidates, reap_each, reap_once,
}

-- Each session stands under its own id, and no id twice.
pub record IsKeyed (t : Table Session) : Type 0 where
  pub own_id : Every (λ k s. s.id ≡ k) t
  pub distinct : Distinct t

abbrev pub has_id : Text → List Session → Bool
has_id id [] = false
has_id id (s ∷ ss) = str_eq s.id id || has_id id ss

lookup-reap_each :
    (ptys : Text → Pty) (id : Text) (ss : List Session) (m : Manager)
    → lookup id (reap_each ptys m ss).by_id ≡ (if has_id id ss then none else lookup id m.by_id)
unfolding reap_each
lookup-reap_each ptys id [] m = refl
lookup-reap_each ptys id (s ∷ ss) m =
    lookup-reap_each ptys id ss _ ∙ ground (arith, lookup-delete s.id id m.by_id)

has_id-missing :
    (now : ℕ) (id : Text) (t : Table Session)
    → Every (λ k s. s.id ≡ k) t
    → lookup id t ≡ none
    → has_id id (candidates now t) ≡ false
unfolding candidates lookup
has_id-missing now id [] own h = refl
has_id-missing now id ((k, s) ∷ t) (o, own) h = elim (Bool-cases (str_eq k id)) [
  | inl e ↦ cc (rw e at h)
  | inr e ↦
      let rest = has_id-missing now id t own (rw e at h) in
      if_cases (λ ss. has_id id ss ≡ false) (is_stale now s) (s ∷ candidates now t)
        (candidates now t) (λ _. rw (o, e) rest) (λ _. rest)
]

pub has_id-candidates :
    (now : ℕ) (id : Text) (t : Table Session) {s : Session}
    → Every (λ k s. s.id ≡ k) t
    → Distinct t
    → lookup id t ≡ some s
    → has_id id (candidates now t) ≡ is_stale now s
unfolding candidates lookup
has_id-candidates now id [] own d h = cc
has_id-candidates now id ((k, w) ∷ t) {s} (o, own) (n, d) h = elim (Bool-cases (str_eq k id)) [
  | inl e ↦
      let found : some w ≡ some s = rw e at h in
      let same : w ≡ s = cc in
      let none_left : has_id id (candidates now t) ≡ false =
        has_id-missing now id t own (subst (λ i. lookup i t ≡ none) ((str_eq_iff k id).0 e) n) in
      if_cases (λ ss. has_id id ss ≡ is_stale now s) (is_stale now w) (w ∷ candidates now t)
        (candidates now t) (λ old. rw (o, e) (sym old ∙ ap (is_stale now) same))
        (λ young. none_left ∙ sym young ∙ ap (is_stale now) same)
  | inr e ↦
      let rest = has_id-candidates now id t own d (rw e at h) in
      if_cases (λ ss. has_id id ss ≡ is_stale now s) (is_stale now w) (w ∷ candidates now t)
        (candidates now t) (λ _. rw (o, e) rest) (λ _. rest)
]

fetch_unless :
    (b : Bool) (s : Session)
    → or_not_found (if b then none else some s) ≡ (if b then err not_found else ok s)
unfolding or_not_found
fetch_unless true s = refl
fetch_unless false s = refl

-- Where each session stands under its own id, and no id twice, one pass of the reaper removes a session
-- exactly if it is stale, and leaves every other as it was.
pub get-reap_once :
    (ptys : Text → Pty) (now : ℕ) (m : Manager) (id : Text) {s : Session}
    → IsKeyed m.by_id
    → get m id ≡ ok s
    → get (reap_once ptys now m).0 id ≡ (if is_stale now s then err not_found else ok s)
unfolding get reap_once
get-reap_once ptys now m id {s} k h =
    let found : lookup id m.by_id ≡ some s = ground arith in
    ap or_not_found (
      lookup-reap_each ptys id (candidates now m.by_id) m
      ∙ ap (λ b. if b then none else lookup id m.by_id)
          (has_id-candidates now id m.by_id k.own_id k.distinct found)
      ∙ ap (λ o. if is_stale now s then none else o) found)
    ∙ fetch_unless (is_stale now s) s

-- Unlimited, attached, or in use within its timeout.
abbrev pub IsKept : ℕ → Session → Type 0
IsKept now s =
    (s.idle_timeout ≡ pos 0)
    ⊎ (0 < count_listed s.clients)
    ⊎ (now ≤ s.last_io + to_nat s.idle_timeout)

is_stale_kept : (now : ℕ) (s : Session) → IsKept now s → is_stale now s ≡ false
unfolding is_stale
is_stale_kept now s (inl unlimited) = ground arith
is_stale_kept now s (inr (inl attached)) = ground arith
is_stale_kept now s (inr (inr busy)) = ground arith

-- So a session with no idle timeout, one with a subscriber, and one that had output or input within its
-- timeout outlive every pass.
pub get-reap_once_kept :
    (ptys : Text → Pty) (now : ℕ) (m : Manager) (id : Text) {s : Session}
    → IsKeyed m.by_id
    → get m id ≡ ok s
    → IsKept now s
    → get (reap_once ptys now m).0 id ≡ ok s
get-reap_once_kept ptys now m id {s} k h why =
    get-reap_once ptys now m id k h
    ∙ ap (λ b. if b then err not_found else ok s) (is_stale_kept now s why)
