-- ===== src/Server/Shells.antt =====
-- relay/internal/server/server.go with relay/cmd/httpssh-relay/main.go and
-- relay/internal/config/shell.go: which shell a request to create a session starts, and with which
-- timeout.
use httpssh.Base.{
  ℕ, ◌*◌, ◌≤◌, ◌≡◌, ◌≢◌, ◌⊎◌, inl, inr, refl, sym, ap, ◌∙◌, false, ◌||◌, Option, none, some, [], ℤ,
  pos, negsuc, arith, ltb, if_cases, false≢true, Text, codes, str_eq, str_eq_iff,
}
use httpssh.Errors.{error_text}
use httpssh.Http.{failed}
use httpssh.Config.{shells}
use httpssh.Config.Checks.{In}
use httpssh.Shell.{Host, unknown_shell, resolve_shell}
use httpssh.Shell.Allowed.{resolve_shell_unknown}
use httpssh.Session.{max_cols, max_rows}
use httpssh.Manager.{Manager, Moment}
use httpssh.Manager.Shells.{with_shells, create_alike, create_unresolved}
use httpssh.Relay.{shell_resolver_for}
use httpssh.Server.{
  Body, no_body, bad_body, body, CreateRequest, zero_request, as_request, or_text, or_number,
  answered, idle_timeout_of, create_error, create_answer, create_with, handle_create_session,
  max_idle_timeout_seconds,
}

or_text-ne-nil : (s : Text) → str_eq (or_text s (codes "pwsh")) [] ≡ false
unfolding str_eq
or_text-ne-nil s = if_cases (λ t. str_eq t [] ≡ false) (str_eq s []) _ _ (λ _. refl) (λ e. e)

shell_resolver_for-named :
    (h : Host) (d name : Text)
    → str_eq name [] ≡ false
    → shell_resolver_for h d name ≡ resolve_shell h name
unfolding shell_resolver_for
shell_resolver_for-named h d name e =
    if_cases (λ n. resolve_shell h n ≡ resolve_shell h name) (str_eq name []) _ _
      (λ x. absurd (false≢true (sym e ∙ x))) (λ _. refl)

-- The manager of a relay whose configured shell is `d`.
abbrev pub with_default : Host → Text → Manager → Manager
with_default h d m = with_shells m (shell_resolver_for h d)

module _ (at : Moment) (m : Manager) (h : Host) (d d' : Text) where
  create_with_default :
      (req : CreateRequest) (t : Option ℤ)
      → (create_with at (with_default h d m) req t).1
        ≡ (create_with at (with_default h d' m) req t).1
  unfolding create_with
  create_with_default req none = refl
  create_with_default req (some t) =
      let named = or_text-ne-nil req.shell in
      ap create_answer (
        create_alike at m (shell_resolver_for h d) (shell_resolver_for h d') (as_request req t) (
          shell_resolver_for-named h d (or_text req.shell (codes "pwsh")) named
          ∙ sym (shell_resolver_for-named h d' (or_text req.shell (codes "pwsh")) named)))

  -- The configured shell never decides what `POST /api/sessions` answers: two relays that differ in it
  -- alone answer every body alike, since a request that names no shell is one for `pwsh`.
  pub handle_create_session_default :
      (b : Body CreateRequest)
      → (handle_create_session at (with_default h d m) b).1
        ≡ (handle_create_session at (with_default h d' m) b).1
  unfolding handle_create_session
  handle_create_session_default no_body = create_with_default zero_request (idle_timeout_of none)
  handle_create_session_default (bad_body e) = refl
  handle_create_session_default (body req) =
      create_with_default req (idle_timeout_of req.idle_timeout_seconds)

-- A timeout that a client names and that is taken is that many seconds, between 0 and 366 days, in
-- nanoseconds, without an overflow of the `int64`; and none is named where the timeout is `-1`.
pub idle_timeout_of_exact :
    (secs : Option ℤ) (t : ℤ)
    → idle_timeout_of secs ≡ some t
    → ((secs ≡ none) × (t ≡ negsuc 0))
      ⊎ ((n : ℕ) × (secs ≡ some (pos n))
          × (n ≤ max_idle_timeout_seconds)
          × (t ≡ pos (n * 1_000_000_000)))
unfolding idle_timeout_of
idle_timeout_of_exact none t h = inl (refl, cc)
idle_timeout_of_exact (some (pos n)) t h = inr (n, refl, ground arith, ground arith)
idle_timeout_of_exact (some (negsuc n)) t h = cc

or_text-named : (s : Text) → s ≢ [] → or_text s (codes "pwsh") ≡ s
or_text-named s ne =
    if_cases (λ t. t ≡ s) (str_eq s []) _ _ (λ e. absurd (ne ((str_eq_iff s []).0 e))) (λ _. refl)

fits_again :
    (cols rows : ℕ)
    → cols ≤ 500
    → rows ≤ 200
    → (ltb max_cols (or_number (or_number cols 80) 80)
        || ltb max_rows (or_number (or_number rows 24) 24))
      ≡ false
fits_again cols rows h k = ground (arith, h, k)

-- A request for a shell that the relay does not know, otherwise in order, is answered with 503
-- `spawn_failed`, and nothing is made.
pub handle_create_session-unknown_shell :
    (at : Moment) (m : Manager) (h : Host) (d : Text) (req : CreateRequest) (t : ℤ)
    → ¬ In req.shell shells
    → req.cols ≤ 500
    → req.rows ≤ 200
    → idle_timeout_of req.idle_timeout_seconds ≡ some t
    → handle_create_session at (with_default h d m) (body req) ≡ (
      with_default h d m,
      failed 503 (codes "spawn_failed") (error_text (unknown_shell req.shell)),
    )
unfolding handle_create_session create_with
handle_create_session-unknown_shell at m h d req t ne c r timeout =
    ap (create_with at (with_default h d m) req) timeout
    ∙ ap (answered create_answer) (
        create_unresolved at m (shell_resolver_for h d) (as_request req t) (unknown_shell req.shell)
          (shell_resolver_for-named h d (or_text req.shell (codes "pwsh"))
              (or_text-ne-nil req.shell)
            ∙ ap (resolve_shell h) (or_text-named req.shell (λ e. ne (inl e)))
            ∙ resolve_shell_unknown h req.shell ne)
          (fits_again req.cols req.rows c r))
    ∙ unfold create_answer create_error in refl
