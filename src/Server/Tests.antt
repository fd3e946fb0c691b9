-- ===== src/Server/Tests.antt =====
-- relay/internal/server/server.go: concrete requests.
use httpssh.Base.{
  ℕ, ◌*◌, ◌≤◌, ◌≡◌, ◌⊎◌, refl, arith, none, some, List, [], ◌∷◌, pos, negsuc, Text, codes,
}
use httpssh.Http.{failed}
use httpssh.Errors.{error_text}
use httpssh.Shell.{unknown_shell}
use httpssh.Manager.{get}
use httpssh.Manager.Steps.{run_steps}
use httpssh.Auth.{Credentials}
use httpssh.Server.{
  body, CreateRequest, ApiCall, get_sessions, post_sessions, delete_session, idle_timeout_of,
  max_idle_timeout_seconds, handle_create_session, handle_kill_session, handle_rename_session,
}
use httpssh.Server.Sessions.{
  RenameReplied, handle_rename_session-RenameReplied, CreateReplied,
  handle_create_session-CreateReplied, KillReplied, handle_kill_session-KillReplied,
}
use httpssh.Server.Routes.{
  serve_all, with_access, all_steps_of, serve_all-with_access, serve_all-run_steps,
}
use httpssh.Server.Shells.{with_default, handle_create_session-unknown_shell, idle_timeout_of_exact}
use httpssh.Fixtures.{ready_pty, stuck_pty, id_a, manager_a, moment, linux_host}

abbrev fish : CreateRequest
fish = record {
  shell = codes "fish";
  cols = 0;
  rows = 0;
  title = [];
  idle_timeout_seconds = some (pos 60);
}

abbrev bearer : Text
bearer = codes "0123456789abcdef"

abbrev calls : List (ApiCall × Credentials)
calls =
    (post_sessions moment (body fish), record { authorization = []; token = bearer })
    ∷ (delete_session ready_pty id_a, record { authorization = []; token = [] })
    ∷ (get_sessions, record { authorization = codes "Bearer 0123456789abcdef"; token = [] })
    ∷ []

serve_all-with_access_example :
    serve_all bearer manager_a (with_access bearer calls) ≡ serve_all bearer manager_a calls
serve_all-with_access_example = serve_all-with_access bearer calls manager_a

serve_all-run_steps_example :
    serve_all bearer manager_a calls ≡ run_steps manager_a (all_steps_of bearer calls)
serve_all-run_steps_example = serve_all-run_steps bearer calls manager_a

handle_create_session-CreateReplied_example :
    CreateReplied moment manager_a (handle_create_session moment manager_a (body fish))
handle_create_session-CreateReplied_example =
    handle_create_session-CreateReplied moment manager_a (body fish)

handle_kill_session-KillReplied_example :
    KillReplied stuck_pty manager_a id_a
      (get manager_a id_a)
      (handle_kill_session stuck_pty manager_a id_a)
handle_kill_session-KillReplied_example = handle_kill_session-KillReplied stuck_pty manager_a id_a

handle_rename_session-RenameReplied_example :
    RenameReplied manager_a id_a
      (body (codes "build"))
      (get manager_a id_a)
      (handle_rename_session manager_a id_a (body (codes "build")))
handle_rename_session-RenameReplied_example =
    handle_rename_session-RenameReplied manager_a id_a (body (codes "build"))

handle_create_session-unknown_shell_example :
    handle_create_session moment (with_default linux_host [] manager_a) (body fish) ≡ (
      with_default linux_host [] manager_a,
      failed 503 (codes "spawn_failed") (error_text (unknown_shell (codes "fish"))),
    )
handle_create_session-unknown_shell_example =
    handle_create_session-unknown_shell moment manager_a linux_host [] fish (pos 60_000_000_000)
      (λ h. ground arith) (omega arith) (omega arith) (unfold idle_timeout_of in refl)

idle_timeout_of_exact_example :
    ((some (pos 60) ≡ none) × (pos 60_000_000_000 ≡ negsuc 0))
    ⊎ ((n : ℕ) × (some (pos 60) ≡ some (pos n))
        × (n ≤ max_idle_timeout_seconds)
        × (pos 60_000_000_000 ≡ pos (n * 1_000_000_000)))
idle_timeout_of_exact_example =
    idle_timeout_of_exact (some (pos 60)) (pos 60_000_000_000) (unfold idle_timeout_of in refl)
