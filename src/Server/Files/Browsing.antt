-- ===== src/Server/Files/Browsing.antt =====
-- relay/internal/server/server.go: browsing the directory of a session.
use httpssh.Base.{
  ℕ, ◌≤◌, ◌≡◌, ◌≢◌, ◌↔◌, refl, sym, ap, ◌∙◌, false≢true, Bool, true, false, Option, none, some, [],
  ◌++◌, if◌then◌else◌, Text, length, codes, str_eq, str_eq_iff, str_eq_ne, trim_space,
}
use httpssh.Errors.{Result, ok, err}
use httpssh.Http.{replied, failed}
use httpssh.Cwd.{cwd_max_body, new_cwd_tracker, feed}
use httpssh.Cwd.Sequence.{Terminator, osc, IsPlain}
use httpssh.Cwd.Directory.{IsDirectory}
use httpssh.Cwd.Announce.{osc99, feed-osc99}
use httpssh.Session.{Session}
use httpssh.Manager.{Manager, get, pump_chunk, pump_read}
use httpssh.Manager.Pumps.{pump_chunk-cwd, get-pump_read}
use httpssh.FileApi.{
  disabled, root_not_found, forbidden, path_not_found, not_directory, invalid_base, not_text,
  too_large, invalid_config, io, Outcome, good, bad, missing, Document, Service, list_at,
}
use httpssh.FileApi.Bases.{list_at_relative, list_at_gone}
use httpssh.FileApi.Reading.{read_at}
use httpssh.FileApi.Reading.Documents.{IsReading, read_at_iff}
use httpssh.Server.Data.{file_document, FileBrowser}
use httpssh.Server.Files.{
  write_file_error, cwd_unknown, session_root_id, list_of_session, document_of_session,
  session_list_with, handle_session_file_list, session_read_with, handle_session_file_read,
}

trim_space_nil : trim_space [] ≡ []
unfolding trim_space
trim_space_nil = refl

-- What the handlers answer about a session with a directory.
module _ (b : FileBrowser) (files : Service) (m : Manager) (id asked : Text) (s : Session)
    (on : b.service ≡ some files) (found_one : get m id ≡ ok s) (ne : s.cwd ≢ []) where
  session_list :
      handle_session_file_list b m id asked ≡ list_of_session id (list_at b.fs s.cwd asked)
  unfolding handle_session_file_list session_list_with
  session_list =
      ap (λ o. session_list_with b o (get m id) id asked) on
      ∙ ap (λ r. session_list_with b (some files) r id asked) found_one
      ∙ ap (λ t. if t then cwd_unknown else list_of_session id (list_at b.fs s.cwd asked))
          (str_eq_ne s.cwd [] ne)

  session_read :
      handle_session_file_read b m id asked
      ≡ document_of_session id (read_at b.fs b.shift_jis files s.cwd asked)
  unfolding handle_session_file_read session_read_with
  session_read =
      ap (λ o. session_read_with b o (get m id) id asked) on
      ∙ ap (λ r. session_read_with b (some files) r id asked) found_one
      ∙ ap
          (λ t.
            if t
            then cwd_unknown
            else document_of_session id (read_at b.fs b.shift_jis files s.cwd asked))
          (str_eq_ne s.cwd [] ne)

-- A directory that the shell announces, in one chunk of output with any plain output round it, is the one
-- that is browsed from then on: the file routes of the session answer with what the service says of
-- that directory, under the session's own root. The sequence is taken to begin in plain output.
pub handle_session_file_list-osc99 :
    (b : FileBrowser) (files : Service) (pick : ℕ → Bool) (now : ℕ) (m : Manager) (id asked : Text)
    (s : Session) (mark : Bool) (path before behind : Text) (e : Terminator)
    → b.service ≡ some files
    → get m id ≡ ok s
    → s.cwd_tracker ≡ new_cwd_tracker
    → IsDirectory path
    → length (osc99 mark path) ≤ cwd_max_body
    → IsPlain before
    → IsPlain behind
    → let m' = pump_read pick now m id (before ++ (osc (osc99 mark path) e ++ behind)) in
      (handle_session_file_list b m' id asked ≡ list_of_session id (list_at b.fs path asked))
      × (handle_session_file_read b m' id asked
          ≡ document_of_session id (read_at b.fs b.shift_jis files path asked))
handle_session_file_list-osc99 b files pick now m id asked s mark path before behind e on found_one
      fresh d fits quiet_before quiet_behind =
    let p : Text = before ++ (osc (osc99 mark path) e ++ behind) in
    let t : Session = pump_chunk pick now s p in
    let there : t.cwd ≡ path = pump_chunk-cwd pick now s p path (
      ap (λ c. feed c p) fresh
      ∙ feed-osc99 mark path before behind e d fits quiet_before quiet_behind) in
    let ne : t.cwd ≢ [] = λ z. d.ne_nil (sym there ∙ z) in
    let m' : Manager = pump_read pick now m id p in
    let at = get-pump_read pick now m id p s found_one in
    (
      session_list b files m' id asked t on at ne
          ∙ ap (λ q. list_of_session id (list_at b.fs q asked)) there,
      session_read b files m' id asked t on at ne
          ∙ ap (λ q. document_of_session id (read_at b.fs b.shift_jis files q asked)) there,
    )

-- What `normalizeBase` looks up of a session's directory.
abbrev pub native_cwd : FileBrowser → Session → Text
native_cwd b s = b.fs.from_slash (trim_space s.cwd)

-- A session's directory that is not absolute is answered with `409 cwd_invalid`; one that is no longer
-- there is answered with `404 not_found`.
pub handle_session_file_list-gone :
    (b : FileBrowser) (files : Service) (m : Manager) (id asked : Text) (s : Session)
    → b.service ≡ some files
    → get m id ≡ ok s
    → trim_space s.cwd ≢ []
    → (b.fs.is_abs (native_cwd b s) ≡ false
        → handle_session_file_list b m id asked
          ≡ failed 409 (codes "cwd_invalid") (codes "fileapi: invalid base path"))
      × (b.fs.is_abs (native_cwd b s) ≡ true
          → b.fs.eval_symlinks (b.fs.clean (native_cwd b s)) ≡ missing
          → handle_session_file_list b m id asked
            ≡ failed 404 (codes "not_found") (codes "fileapi: path not found"))
unfolding write_file_error
handle_session_file_list-gone b files m id asked s on found_one ne =
    let answered : handle_session_file_list b m id asked
        ≡ list_of_session id (list_at b.fs s.cwd asked) =
      session_list b files m id asked s on found_one (λ z. ne (ap trim_space z ∙ trim_space_nil)) in
    (
      (λ h. answered ∙ ap (list_of_session id) (list_at_relative b.fs s.cwd asked h)),
      (λ h gone. answered ∙ ap (list_of_session id) (list_at_gone b.fs s.cwd asked ne h gone)),
    )

-- A document under the root of a session.
abbrev pub IsShown : FileBrowser → Manager → Text → Text → Document → Type 0
IsShown b m id asked d =
    (files : Service) × (s : Session) × (read_one : Document) × (b.service ≡ some files)
    × (get m id ≡ ok s)
    × (s.cwd ≢ [])
    × IsReading b.fs b.shift_jis files s.cwd asked read_one
    × (d ≡ record read_one { root = session_root_id id })

document_of_session_good :
    (id : Text) (o : Outcome Document) (d : Document)
    → document_of_session id o ≡ replied 200 (file_document d)
    → (read_one : Document) × (o ≡ good read_one)
      × (d ≡ record read_one { root = session_root_id id })
unfolding write_file_error
document_of_session_good id (good x) d h = (x, refl, cc)
document_of_session_good id (bad disabled) d h = cc
document_of_session_good id (bad root_not_found) d h = cc
document_of_session_good id (bad forbidden) d h = cc
document_of_session_good id (bad path_not_found) d h = cc
document_of_session_good id (bad not_directory) d h = cc
document_of_session_good id (bad invalid_base) d h = cc
document_of_session_good id (bad not_text) d h = cc
document_of_session_good id (bad too_large) d h = cc
document_of_session_good id (bad (invalid_config f)) d h = cc
document_of_session_good id (bad (io e)) d h = cc

read-IsShown :
    (b : FileBrowser) (m : Manager) (id asked : Text) (d : Document) (o : Option Service)
    (r : Result Session)
    → b.service ≡ o
    → get m id ≡ r
    → session_read_with b o r id asked ≡ replied 200 (file_document d)
    → IsShown b m id asked d
unfolding session_read_with write_file_error
read-IsShown b m id asked d none r on at h = cc
read-IsShown b m id asked d (some files) (err e) on at h = cc
read-IsShown b m id asked d (some files) (ok s) on at h = by_cwd (str_eq s.cwd []) refl h
  where
    by_cwd :
        (t : Bool)
        → str_eq s.cwd [] ≡ t
        → (if t
            then cwd_unknown
            else document_of_session id (read_at b.fs b.shift_jis files s.cwd asked))
          ≡ replied 200 (file_document d)
        → IsShown b m id asked d
    by_cwd true e k = cc
    by_cwd false e k =
        let (x, one, same) =
          document_of_session_good id (read_at b.fs b.shift_jis files s.cwd asked) d k in
        (
          files,
          s,
          x,
          on,
          at,
          (λ z. false≢true (sym e ∙ (str_eq_iff s.cwd []).1 z)),
          (read_at_iff b.fs b.shift_jis files s.cwd asked x).0 one,
          same,
        )

-- The request for a document of a session is answered with one exactly when there are a service, the
-- session and its directory, and the service reads it below that directory; it is then under the
-- session's root.
pub handle_session_file_read_iff :
    (b : FileBrowser) (m : Manager) (id asked : Text) (d : Document)
    → (handle_session_file_read b m id asked ≡ replied 200 (file_document d))
      ↔ IsShown b m id asked d
handle_session_file_read_iff b m id asked d = (
  (λ h.
      unfold handle_session_file_read in
      read-IsShown b m id asked d b.service (get m id) refl refl h),
  (λ (files, s, x, on, at, ne, i, same).
      session_read b files m id asked s on at ne
      ∙ ap (document_of_session id) ((read_at_iff b.fs b.shift_jis files s.cwd asked x).1 i)
      ∙ ap (λ y. replied 200 (file_document y)) (sym same)),
)
