-- ===== src/Shell.antt =====
-- relay/internal/config/shell.go: from a logical shell name to an executable.
--
-- The host answers through a record: `look_path` is `exec.LookPath`, `stat` says whether `os.Stat`
-- finds a file, `join` is `filepath.Join`. `encode` is `encodePwshScript`.
pub mod Allowed
mod Tests
use httpssh.Base.{
  Bool, true, false, not, ◌||◌, Option, none, some, List, [], ◌∷◌, ◌++◌, if◌then◌else◌, Text, codes,
  str_eq,
}
use httpssh.Errors.{Result, ok, err, Error, other}

pub record Host : Type 0 where
  pub look_path : Text → Option Text
  pub stat : Text → Bool
  pub is_windows : Bool
  pub system_root : Text
  pub join : List Text → Text
  pub encode : Text → Text

-- The lines of the prompt script.
abbrev prompt_script : Text
prompt_script =
    codes "$global:_HttpsshPriorPrompt = (Get-Item function:prompt).ScriptBlock\n"
    ++ codes "function global:prompt {\n"
    ++ codes "  $base = & $global:_HttpsshPriorPrompt\n"
    ++ codes "  if ($PWD.Provider.Name -eq 'FileSystem') {\n"
    ++ codes "    \"$([char]27)]9;9;$($PWD.ProviderPath)$([char]7)$base\"\n"
    ++ codes "  } else {\n"
    ++ codes "    $base\n"
    ++ codes "  }\n"
    ++ codes "}\n"

unfoldable pub power_shell_args : Host → List Text
power_shell_args h =
    codes "-NoLogo" ∷ codes "-NoExit" ∷ codes "-EncodedCommand" ∷ h.encode prompt_script ∷ []

unfoldable pub cmd_args : List Text
cmd_args = codes "/D" ∷ codes "/K" ∷ codes "prompt $E]9;9;$P$E\\$P$G " ∷ []

abbrev pub power_shell_candidate : Host → Text
power_shell_candidate h = h.join (
    h.system_root
    ∷ codes "System32"
    ∷ codes "WindowsPowerShell"
    ∷ codes "v1.0"
    ∷ codes "powershell.exe"
    ∷ [])

abbrev pub cmd_candidate : Host → Text
cmd_candidate h = h.join (h.system_root ∷ codes "System32" ∷ codes "cmd.exe" ∷ [])

-- `exec.LookPath` for a name, and what to do where it finds nothing.
pub look_up : Host → Text → Result (Text × List Text) → Result (Text × List Text)
look_up h name next = elim (h.look_path name) [ some p ↦ ok (p, power_shell_args h) | none ↦ next ]

pub windows_power_shell : Host → Text → Result (Text × List Text)
windows_power_shell h message =
    if h.is_windows
    then (if h.stat (power_shell_candidate h)
        then ok (power_shell_candidate h, power_shell_args h)
        else err (other message))
    else err (other message)

pub resolve_cmd : Host → Result (Text × List Text)
unfolding cmd_args
resolve_cmd h =
    if not h.is_windows
    then err (other (codes "cmd requires Windows"))
    else if h.stat (cmd_candidate h)
    then ok (cmd_candidate h, cmd_args)
    else err (other (codes "cmd.exe not found at expected location"))

-- The text quotes the name as `%q` does; it is kept unquoted here.
abbrev pub unknown_shell : Text → Error
unknown_shell name =
    other (codes "unknown shell " ++ name ++ codes " (allowed: pwsh, powershell, cmd, auto)")

-- `ResolveShell`
unfoldable pub resolve_shell : Host → Text → Result (Text × List Text)
unfolding look_up windows_power_shell resolve_cmd power_shell_args
resolve_shell h name =
    if str_eq name [] || str_eq name (codes "auto")
    then look_up h (codes "pwsh") (
        look_up h (codes "powershell")
          (windows_power_shell h (codes "no PowerShell binary found on PATH")))
    else if str_eq name (codes "pwsh")
    then look_up h (codes "pwsh") (err (other (codes "pwsh not found on PATH")))
    else if str_eq name (codes "powershell")
    then look_up h (codes "powershell") (windows_power_shell h (codes "powershell not found"))
    else if str_eq name (codes "cmd")
    then resolve_cmd h
    else err (unknown_shell name)
