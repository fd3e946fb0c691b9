-- ===== src/Shell/Allowed.antt =====
-- relay/internal/config/shell.go: `ResolveShell` launches nothing but the shells it names.
use httpssh.Base.{
  ◌≡◌, ◌⊎◌, inl, inr, refl, Bool, true, false, not, ◌||◌, some, List, [], arith, if_cases,
  Option-cases, Bool-cases, Text, codes, str_eq, str_eq_iff,
}
use httpssh.Errors.{Result, ok, err, is_invalid_shell}
use httpssh.Config.{shells}
use httpssh.Config.Checks.{In}
use httpssh.Shell.{
  Host, look_up, windows_power_shell, resolve_cmd, unknown_shell, resolve_shell,
  power_shell_candidate, cmd_candidate, power_shell_args, cmd_args,
}

-- The executable is what the host knows as `pwsh` or `powershell`, or one of the two files of the
-- system's directory, and its arguments are those that install the prompt.
abbrev pub IsLaunch : Host → Text × List Text → Type 0
IsLaunch h (exe, args) =
    ((args ≡ power_shell_args h)
      × ((h.look_path (codes "pwsh") ≡ some exe)
          ⊎ ((h.look_path (codes "powershell") ≡ some exe)
              ⊎ ((exe ≡ power_shell_candidate h) × ((h.stat exe ≡ true) × (h.is_windows ≡ true))))))
    ⊎ ((args ≡ cmd_args)
        × ((exe ≡ cmd_candidate h) × ((h.stat exe ≡ true) × (h.is_windows ≡ true))))

-- For a name of which `named` says that it is allowed.
abbrev Answers : Host → Bool → Result (Text × List Text) → Type 0
Answers h named (ok launch) = (named ≡ true) × IsLaunch h launch
Answers h named (err e) = is_invalid_shell e ≡ false

windows_power_shell-Answers :
    (h : Host) (message : Text) → Answers h true (windows_power_shell h message)
unfolding windows_power_shell
windows_power_shell-Answers h message =
    if_cases (Answers h true) h.is_windows _ _
      (λ w.
        if_cases (Answers h true) (h.stat (power_shell_candidate h)) _ _
          (λ f. (refl, inl (refl, inr (inr (refl, (f, w)))))) (λ _. refl))
      (λ _. refl)

look_up_pwsh :
    (h : Host) (next : Result (Text × List Text))
    → Answers h true next
    → Answers h true (look_up h (codes "pwsh") next)
unfolding look_up
look_up_pwsh h next k = elim (Option-cases (h.look_path (codes "pwsh"))) [
  | inl e ↦ rw (e, look_up) k
  | inr (p, e) ↦ rw (e, look_up) (refl, inl (refl, inl e))
]

look_up_powershell :
    (h : Host) (next : Result (Text × List Text))
    → Answers h true next
    → Answers h true (look_up h (codes "powershell") next)
unfolding look_up
look_up_powershell h next k = elim (Option-cases (h.look_path (codes "powershell"))) [
  | inl e ↦ rw (e, look_up) k
  | inr (p, e) ↦ rw (e, look_up) (refl, inl (refl, inr (inl e)))
]

resolve_cmd-Answers : (h : Host) → Answers h true (resolve_cmd h)
unfolding resolve_cmd
resolve_cmd-Answers h =
    if_cases (Answers h true) (not h.is_windows) _ _ (λ _. refl)
      λ w.
        if_cases (Answers h true) (h.stat (cmd_candidate h)) _ _
          (λ f. (refl, inr (refl, (refl, (f, ground arith))))) (λ _. refl)

-- The answer for a name: an error is none that a handler takes for `ErrInvalidShell`.
abbrev pub IsResolved : Host → Text → Result (Text × List Text) → Type 0
IsResolved h name (ok launch) = In name shells × IsLaunch h launch
IsResolved h name (err e) = is_invalid_shell e ≡ false

allowed :
    (h : Host) (name : Text) (r : Result (Text × List Text))
    → In name shells
    → Answers h true r
    → IsResolved h name r
allowed h name (ok launch) i k = (i, k.1)
allowed h name (err e) i k = k

abbrev default_shell : Host → Result (Text × List Text)
default_shell h = look_up h (codes "pwsh") (
    look_up h (codes "powershell")
      (windows_power_shell h (codes "no PowerShell binary found on PATH")))

default_allowed :
    (name : Text) → (str_eq name [] || str_eq name (codes "auto")) ≡ true → In name shells
default_allowed name h = elim (Bool-cases (str_eq name [])) [
  | inl e ↦ inl ((str_eq_iff name []).0 e)
  | inr e ↦ inr (inl ((str_eq_iff name (codes "auto")).0 (ground arith)))
]

-- `ResolveShell` gives an executable only for a name among `""`, `auto`, `pwsh`, `powershell` and `cmd`,
-- the shells that `Validate` takes, and then it is one of the host's PowerShell or cmd binaries, with the
-- arguments that install its prompt; every error it gives is another than `ErrInvalidShell`.
pub resolve_shell-IsResolved : (h : Host) (name : Text) → IsResolved h name (resolve_shell h name)
unfolding resolve_shell
resolve_shell-IsResolved h name =
    let P : Result (Text × List Text) → Type 0 = IsResolved h name in
    if_cases P _ _ _
      (λ e.
        allowed h name _ (default_allowed name e)
          (look_up_pwsh h _ (look_up_powershell h _ (windows_power_shell-Answers h _))))
      λ _.
        if_cases P _ _ _
          (λ e.
            allowed h name _ (inr (inr (inl ((str_eq_iff name (codes "pwsh")).0 e))))
              (look_up_pwsh h _ refl))
          λ _.
            if_cases P _ _ _
              (λ e.
                allowed h name _
                  (inr (inr (inr (inl ((str_eq_iff name (codes "powershell")).0 e)))))
                  (look_up_powershell h _ (windows_power_shell-Answers h _)))
              λ _.
                if_cases P _ _ _
                  (λ e.
                    allowed h name _
                      (inr (inr (inr (inr (inl ((str_eq_iff name (codes "cmd")).0 e))))))
                      (resolve_cmd-Answers h))
                  (λ _. refl)

-- Every other name is refused before the host is asked anything.
pub resolve_shell_unknown :
    (h : Host) (name : Text) → ¬ In name shells → resolve_shell h name ≡ err (unknown_shell name)
unfolding resolve_shell
resolve_shell_unknown h name ne =
    let P : Result (Text × List Text) → Type 0 = λ r. r ≡ err (unknown_shell name) in
    if_cases P _ _ _ (λ e. absurd (ne (default_allowed name e)))
      λ _.
        if_cases P _ _ _ (λ e. absurd (ne (inr (inr (inl ((str_eq_iff name (codes "pwsh")).0 e))))))
          λ _.
            if_cases P _ _ _
              (λ e.
                absurd (ne (inr (inr (inr (inl ((str_eq_iff name (codes "powershell")).0 e)))))))
              λ _.
                if_cases P _ _ _
                  (λ e.
                    absurd (ne (inr (inr (inr (inr (inl ((str_eq_iff name (codes "cmd")).0 e))))))))
                  λ _. refl
