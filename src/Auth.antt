-- ===== src/Auth.antt =====
-- relay/internal/auth/auth.go: the bearer that every request to /api/ must carry.
pub mod Gate
mod Tests
use httpssh.Base.{
  Bool, true, false, not, List, [], ◌∷◌, ◌++◌, if◌then◌else◌, length, drop, Text, codes, str_eq,
  has_prefix, trim_space,
}
use httpssh.Http.{Response, failed}

-- What the policy reads of a request: the `Authorization` header and the `token` of the query, both
-- empty where the request has none.
pub record Credentials : Type 0 where
  pub authorization : Text
  pub token : Text

abbrev pub bearer_prefix : Text
bearer_prefix = codes "Bearer "

unfoldable pub bearer_from_request : Credentials → Text
unfolding trim_space has_prefix
bearer_from_request r =
    let hdr = trim_space r.authorization in
    if has_prefix hdr bearer_prefix then trim_space (drop (length bearer_prefix) hdr) else r.token

-- `evaluate` on the bearer that the request presents. `subtle.ConstantTimeCompare` on the two texts is
-- their equality.
check_bearer : Text → Text → Bool × Text
check_bearer lan_bearer got =
    if str_eq lan_bearer []
    then (false, codes "unauthorized")
    else if str_eq got []
    then (false, codes "unauthorized")
    else if not (str_eq got lan_bearer)
    then (false, codes "unauthorized")
    else (true, [])

unfoldable pub evaluate : Text → Credentials → Bool × Text
unfolding check_bearer bearer_from_request str_eq
evaluate lan_bearer r = check_bearer lan_bearer (bearer_from_request r)

-- `next` is the handler behind the gate, which may change the state `s`.
unfoldable pub middleware {ℓ κ} :
    {S : Type ℓ} {A : Type κ}
    → Text
    → (S → Credentials → S × Response A)
    → S
    → Credentials
    → S × Response A
unfolding evaluate
middleware lan_bearer next s r =
    let (accepted, code) = evaluate lan_bearer r in
    if not accepted then (s, failed 401 code (codes "missing or invalid credentials")) else next s r
