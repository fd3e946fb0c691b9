-- ===== src/Relay/Tests.antt =====
-- relay/cmd/httpssh-relay/main.go: a relay that starts on the defaults.
use httpssh.Base.{[], ◌∷◌, refl, Bool, true, none, some, Text, replicate}
use httpssh.Config.{default_config}
use httpssh.Relay.{build_config}
use httpssh.Relay.Startup.{no_flags, IsStarted, build_config-IsStarted}
use httpssh.Manager.Steps.{creates}
use httpssh.Relay.Running.{context_done, run_relay}
use httpssh.Relay.Running.Ended.{IsEnded, run_relay-IsEnded}
use httpssh.Fixtures.{ready_pty, linux_host, spawn_nothing, moment, request, disk}

abbrev absolute : Text → Bool
absolute path = true

abbrev random : Text
random = replicate 32 7

build_config-IsStarted_example :
    IsStarted absolute (build_config absolute (some default_config) no_flags (some random))
build_config-IsStarted_example =
    build_config-IsStarted absolute (some default_config) no_flags (some random) refl

run_relay-IsEnded_example : IsEnded disk default_config (context_done none) (
    run_relay disk spawn_nothing linux_host
      (λ id. ready_pty)
      default_config
      (creates moment request ∷ [])
      (creates moment request ∷ [])
      (context_done none))
run_relay-IsEnded_example =
    run_relay-IsEnded disk spawn_nothing linux_host (λ id. ready_pty) default_config
      (creates moment request ∷ []) (creates moment request ∷ []) (context_done none)
