-- ===== src/Auth/Tests.antt =====
-- relay/internal/auth/auth.go: runs on concrete requests.
use httpssh.Base.{
  ◌≡◌, refl, [], Text, codes, has_prefix, trim_space, space_width, last_space_width, str_eq,
}
use httpssh.Http.{Response, failed, replied}
use httpssh.Auth.{Credentials, bearer_from_request, evaluate, middleware}

abbrev lan_bearer : Text
lan_bearer = codes "0123456789abcdef"

abbrev handler : Text → Credentials → Text × Response Text
handler s r = (codes "touched", replied 200 (codes "ok"))

abbrev stranger : Credentials
stranger = record { authorization = []; token = codes "guess" }

turns_away :
    middleware lan_bearer handler [] stranger
    ≡ ([], failed 401 (codes "unauthorized") (codes "missing or invalid credentials"))
unfolding middleware evaluate bearer_from_request trim_space has_prefix str_eq space_width
    last_space_width
turns_away = refl
