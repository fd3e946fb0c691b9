-- ===== src/Http.antt =====
-- relay/internal/server/server.go and relay/internal/auth/auth.go: the shapes of a response, as
-- `writeJSON`, `writeError` and a bare `WriteHeader` send them.
use httpssh.Base.{ℕ, Text}

pub data Response {ℓ} (A : Type ℓ) : Type ℓ where
  replied : ℕ → A → Response A
  failed : ℕ → Text → Text → Response A
  bare : ℕ → Response A

abbrev pub status {ℓ} : {A : Type ℓ} → Response A → ℕ
status (replied n a) = n
status (failed n code message) = n
status (bare n) = n
