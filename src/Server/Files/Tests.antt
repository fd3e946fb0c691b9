-- ===== src/Server/Files/Tests.antt =====
-- relay/internal/server/server.go: concrete requests for files.
use httpssh.Base.{
  ◌≡◌, ◌↔◌, refl, arith, [], ◌∷◌, ◌++◌, true, false, codes, lookup, str_eq, trim_space, space_width,
  last_space_width, byte_width,
}
use httpssh.Http.{replied, failed}
use httpssh.Cwd.{cwd_max_body}
use httpssh.Cwd.Sequence.{bel, osc}
use httpssh.Cwd.Directory.{IsDirectory}
use httpssh.Cwd.Announce.{osc99}
use httpssh.Session.{Session}
use httpssh.Manager.{Manager, get, pump_read}
use httpssh.FileApi.{missing, Document, list_at}
use httpssh.FileApi.Reading.{read_at}
use httpssh.Server.{FileBrowser, file_document}
use httpssh.Server.Files.{
  list_of_session, document_of_session, session_root_id, handle_session_file_list,
  handle_session_file_read,
}
use httpssh.Server.Files.Browsing.{
  IsShown, native_cwd, handle_session_file_list-osc99, handle_session_file_list-gone,
  handle_session_file_read_iff,
}
use httpssh.Fixtures.{first_ready, id_a, session_a, manager_a, home, disk, home_files, browser}

home-IsDirectory : IsDirectory home
home-IsDirectory = record {
  quiet = ground arith;
  ne_nil = λ e. cc;
  first_no_space = unfold space_width in refl;
  last_no_space = unfold last_space_width in refl;
  first_no_quote = unfold byte_width in refl;
  last_no_quote = unfold byte_width in refl;
}

abbrev announced : Manager
announced =
    pump_read first_ready 60 manager_a id_a
      (codes "ok\n" ++ (osc (osc99 true home) bel ++ codes "> "))

handle_session_file_list-osc99_example :
    (handle_session_file_list browser announced id_a []
      ≡ list_of_session id_a (list_at disk home []))
    × (handle_session_file_read browser announced id_a []
        ≡ document_of_session id_a (read_at disk browser.shift_jis home_files home []))
handle_session_file_list-osc99_example =
    handle_session_file_list-osc99 browser home_files first_ready 60 manager_a id_a [] session_a
      true home (codes "ok\n") (codes "> ") bel refl (unfold get lookup str_eq in refl) refl
      home-IsDirectory (unfold cwd_max_body in omega arith) (ground arith) (ground arith)

abbrev document_a : Document
document_a = record {
  root = session_root_id id_a;
  path = codes "a";
  name = codes "a";
  size = 5;
  modified_at = 1;
  encoding = codes "utf-8";
  content = codes "hello";
}

handle_session_file_read_iff_example :
    (handle_session_file_read browser announced id_a (codes "a")
      ≡ replied 200 (file_document document_a))
    ↔ IsShown browser announced id_a (codes "a") document_a
handle_session_file_read_iff_example =
    handle_session_file_read_iff browser announced id_a (codes "a") document_a

abbrev session_home : Session
session_home = record session_a { cwd = home }

abbrev browser_gone : FileBrowser
browser_gone = record browser { fs = record disk { eval_symlinks = λ p. missing } }

abbrev manager_home : Manager
manager_home = record manager_a { by_id = (id_a, session_home) ∷ [] }

handle_session_file_list-gone_example :
    (disk.is_abs (native_cwd browser_gone session_home) ≡ false
      → handle_session_file_list browser_gone manager_home id_a []
        ≡ failed 409 (codes "cwd_invalid") (codes "fileapi: invalid base path"))
    × (disk.is_abs (native_cwd browser_gone session_home) ≡ true
        → browser_gone.fs.eval_symlinks (native_cwd browser_gone session_home) ≡ missing
        → handle_session_file_list browser_gone manager_home id_a []
          ≡ failed 404 (codes "not_found") (codes "fileapi: path not found"))
handle_session_file_list-gone_example =
    handle_session_file_list-gone browser_gone home_files manager_home id_a [] session_home refl
      (unfold get lookup str_eq in refl) (unfold trim_space space_width last_space_width in λ e. cc)
