-- ===== src/Attach/Command.antt =====
-- relay/cmd/httpssh-relay/attach.go: `runAttach`, up to the loops.
use httpssh.Base.{ℕ, Bool, true, not, Option, none, some, List, [], if◌then◌else◌, Text, str_eq}
use httpssh.Config.{Config}
use httpssh.Session.{SessionInfo}
use httpssh.Attach.{
  Url, UrlLibrary, AttachFlags, AttachOpts, AttachError, no_config, no_bearer, no_terminal, Attempt,
  done, gave_up, attach_opts, normalize_relay_url, build_attach_ws_url,
}
use httpssh.Attach.Client.{ClientRequest, Exchange, list_sessions}
use httpssh.Attach.Choice.{Input, resolve_session_id}

-- How the command ends, or with which URL and session its loops begin.
pub data AttachEnd : Type 0 where
  stopped : AttachError → AttachEnd
  printed : List SessionInfo → AttachEnd
  attached : Url → Text → AttachEnd

module _ {S : Type 0} (lib : UrlLibrary) (net : ClientRequest → S → S × Exchange) where
  pub printed_list : S × Attempt (List SessionInfo) → S × AttachEnd
  printed_list (s, gave_up e) = (s, stopped e)
  printed_list (s, done is) = (s, printed is)

  pub attached_to : Text → Attempt Url → AttachEnd
  attached_to id (gave_up e) = stopped e
  attached_to id (done u) = attached u id

  pub with_session_id : Url → AttachOpts → S × Attempt Text → S × AttachEnd
  unfolding attached_to build_attach_ws_url
  with_session_id base opts (s, gave_up e) = (s, stopped e)
  with_session_id base opts (s, done id) =
      (s, attached_to id (build_attach_ws_url lib base id opts.bearer true))

  pub with_base : Bool → Input → ℕ × ℕ → AttachOpts → S → Attempt Url → S × AttachEnd
  unfolding printed_list with_session_id list_sessions resolve_session_id
  with_base is_terminal input size opts s (gave_up e) = (s, stopped e)
  with_base is_terminal input size opts s (done base) =
      let o : AttachOpts = record opts { listen_url = lib.string base } in
      if o.list_only
      then printed_list (list_sessions lib net o s)
      else if not is_terminal
      then (s, stopped no_terminal)
      else with_session_id base o (resolve_session_id lib net o size input s)

  -- `loaded` is the answer of `config.Load`; `is_terminal` says that both the standard input and the
  -- standard output are terminals.
  unfoldable pub run_attach : Option Config → AttachFlags → Bool → Input → ℕ × ℕ → S → S × AttachEnd
  unfolding attach_opts str_eq with_base normalize_relay_url
  run_attach none f is_terminal input size s = (s, stopped no_config)
  run_attach (some c) f is_terminal input size s =
      let opts = attach_opts f c in
      if str_eq opts.bearer []
      then (s, stopped no_bearer)
      else with_base is_terminal input size opts s (normalize_relay_url lib opts.listen_url)
