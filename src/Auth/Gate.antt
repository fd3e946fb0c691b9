-- ===== src/Auth/Gate.antt =====
-- relay/internal/auth/auth.go: who gets through.
use mathlib.Core.List.{reverse, reverse-append, reverse-reverse}
use httpssh.Base.{
  ◌≡◌, ◌≢◌, ◌↔◌, inl, inr, refl, sym, ap, ◌∙◌, true, false, [], ◌∷◌, ◌++◌, arith, Bool-cases, Text,
  codes, str_eq_iff, trim_space, trim_by_clean, space_width, last_space_width,
}
use httpssh.Http.{Response, failed}
use httpssh.Auth.{
  Credentials, bearer_prefix, bearer_from_request, check_bearer, evaluate, middleware,
}

check_bearer_iff :
    (lan_bearer got : Text)
    → ((check_bearer lan_bearer got).0 ≡ true) ↔ ((lan_bearer ≢ []) × (got ≡ lan_bearer))
unfolding check_bearer
check_bearer_iff lan_bearer got = (
  λ h. ground (arith, str_eq_iff lan_bearer [], str_eq_iff got [], str_eq_iff got lan_bearer),
  λ h. ground (arith, str_eq_iff lan_bearer [], str_eq_iff got [], str_eq_iff got lan_bearer),
)

-- A request is let through exactly if the relay has a bearer and the request presents it.
pub evaluate_iff :
    (lan_bearer : Text) (r : Credentials)
    → ((evaluate lan_bearer r).0 ≡ true)
      ↔ ((lan_bearer ≢ []) × (bearer_from_request r ≡ lan_bearer))
unfolding evaluate
evaluate_iff lan_bearer r = check_bearer_iff lan_bearer (bearer_from_request r)

check_bearer_code :
    (lan_bearer got : Text)
    → (check_bearer lan_bearer got).0 ≡ false
    → (check_bearer lan_bearer got).1 ≡ codes "unauthorized"
unfolding check_bearer
check_bearer_code lan_bearer got h = ground arith

evaluate_code :
    (lan_bearer : Text) (r : Credentials)
    → (evaluate lan_bearer r).0 ≡ false
    → (evaluate lan_bearer r).1 ≡ codes "unauthorized"
unfolding evaluate
evaluate_code lan_bearer r h = check_bearer_code lan_bearer (bearer_from_request r) h

middleware_by {ℓ κ} :
    {S : Type ℓ} {A : Type κ} (lan_bearer : Text) (next : S → Credentials → S × Response A) (s : S)
    (r : Credentials)
    → ((evaluate lan_bearer r).0 ≡ true → middleware lan_bearer next s r ≡ next s r)
      × ((evaluate lan_bearer r).0 ≡ false
          → middleware lan_bearer next s r
            ≡ (s, failed 401 (evaluate lan_bearer r).1 (codes "missing or invalid credentials")))
unfolding middleware
middleware_by lan_bearer next s r = ((λ h. rw h), (λ h. rw h))

-- The gate, both ways: with the bearer the answer is the handler's, and without it the handler is not
-- asked and the state stays: the answer is 401 with the code `unauthorized`.
pub middleware_gate {ℓ κ} :
    {S : Type ℓ} {A : Type κ} (lan_bearer : Text) (next : S → Credentials → S × Response A) (s : S)
    (r : Credentials)
    → (((lan_bearer ≢ []) × (bearer_from_request r ≡ lan_bearer))
        → middleware lan_bearer next s r ≡ next s r)
      × (¬ ((lan_bearer ≢ []) × (bearer_from_request r ≡ lan_bearer))
          → middleware lan_bearer next s r
            ≡ (s, failed 401 (codes "unauthorized") (codes "missing or invalid credentials")))
middleware_gate lan_bearer next s r = (granted, denied)
  where
    granted :
        ((lan_bearer ≢ []) × (bearer_from_request r ≡ lan_bearer))
        → middleware lan_bearer next s r ≡ next s r
    granted h = (middleware_by lan_bearer next s r).0 ((evaluate_iff lan_bearer r).1 h)

    denied :
        ¬ ((lan_bearer ≢ []) × (bearer_from_request r ≡ lan_bearer))
        → middleware lan_bearer next s r
          ≡ (s, failed 401 (codes "unauthorized") (codes "missing or invalid credentials"))
    denied h = elim (Bool-cases (evaluate lan_bearer r).0) [
      | inl yes_ ↦ absurd (h ((evaluate_iff lan_bearer r).0 yes_))
      | inr no_ ↦
          (middleware_by lan_bearer next s r).1 no_
          ∙ ap (λ c. (s, failed 401 c (codes "missing or invalid credentials")))
              (evaluate_code lan_bearer r no_)
    ]

last_space_width-append :
    (s t : Text) → s ≢ [] → last_space_width (s ++ (32 ∷ t)) ≡ last_space_width s
unfolding last_space_width
last_space_width-append [] t ne = absurd (ne refl)
last_space_width-append (a ∷ []) [] ne = ground arith
last_space_width-append (a ∷ []) (x ∷ t) ne = ground arith
last_space_width-append (a ∷ b ∷ []) t ne = ground arith
last_space_width-append (a ∷ b ∷ c ∷ s) t ne = refl

-- A bearer with no white space at either end, which is what a header can carry.
pub record IsToken (b : Text) : Type 0 where
  pub ne_nil : b ≢ []
  pub first_no_space : space_width b ≡ 0
  pub last_no_space : last_space_width (reverse b) ≡ 0

reverse-ne-nil : (s : Text) → s ≢ [] → reverse s ≢ []
reverse-ne-nil s ne e = ne (sym (reverse-reverse s) ∙ ap reverse e)

trim_space_header : (b : Text) → IsToken b → trim_space (bearer_prefix ++ b) ≡ bearer_prefix ++ b
unfolding trim_space
trim_space_header b k =
    trim_by_clean space_width last_space_width (bearer_prefix ++ b) (unfold space_width in refl) (
      ap last_space_width (reverse-append bearer_prefix b)
      ∙ last_space_width-append (reverse b) _ (reverse-ne-nil b k.ne_nil)
      ∙ k.last_no_space)

trim_space_token : (b : Text) → IsToken b → trim_space b ≡ b
unfolding trim_space
trim_space_token b k = trim_by_clean space_width last_space_width b k.first_no_space k.last_no_space

pub bearer_from_request_header :
    (b token : Text)
    → IsToken b
    → bearer_from_request (record { authorization = bearer_prefix ++ b; token = token }) ≡ b
unfolding bearer_from_request
bearer_from_request_header b token k = rw (trim_space_header b k) (trim_space_token b k)

-- The header that `httpssh-relay attach` sends, `Bearer ` and the bearer, opens the gate to a bearer with
-- no white space at either end, whatever the query says.
pub middleware_header {ℓ κ} :
    {S : Type ℓ} {A : Type κ} (b token : Text) (next : S → Credentials → S × Response A) (s : S)
    → IsToken b
    → let r : Credentials = record { authorization = bearer_prefix ++ b; token = token } in
      middleware b next s r ≡ next s r
middleware_header b token next s k =
    (middleware_gate b next s _).0 (k.ne_nil, bearer_from_request_header b token k)
