-- ===== src/Shell/Tests.antt =====
-- relay/internal/config/shell.go: shells on a concrete host.
use httpssh.Base.{◌≡◌, refl, codes, str_eq}
use httpssh.Errors.{ok}
use httpssh.Shell.{resolve_shell, power_shell_args}
use httpssh.Shell.Allowed.{IsResolved, resolve_shell-IsResolved}
use httpssh.Fixtures.{linux_host}

resolve_shell-IsResolved_example :
    IsResolved linux_host (codes "auto") (resolve_shell linux_host (codes "auto"))
resolve_shell-IsResolved_example = resolve_shell-IsResolved linux_host (codes "auto")

finds_pwsh :
    resolve_shell linux_host (codes "auto")
    ≡ ok (codes "/usr/bin/pwsh", power_shell_args linux_host)
unfolding resolve_shell str_eq
finds_pwsh = refl
