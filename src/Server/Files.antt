-- ===== src/Server/Files.antt =====
-- relay/internal/server/server.go: the handlers of the file routes. A parameter of the query that is not
-- there is an empty text. The logging of an unexpected error is left out.
pub mod Browsing
mod Tests
use httpssh.Base.{true, false, Option, none, some, [], ◌++◌, if◌then◌else◌, Text, codes, str_eq}
use httpssh.Errors.{Error, Result, ok, err, error_text}
use httpssh.Http.{Response, replied, failed}
use httpssh.Session.{Session}
use httpssh.Manager.{Manager, get}
use httpssh.FileApi.{
  FileError, disabled, root_not_found, forbidden, path_not_found, not_directory, invalid_base,
  not_text, too_large, invalid_config, io, Outcome, good, bad, ListResult, Document, Service,
  list_files, list_at, root_infos,
}
use httpssh.FileApi.Reading.{read, read_at}
use httpssh.Server.Data.{Reply, file_roots, file_list, file_document, FileBrowser}

-- `writeFileError`
unfoldable pub write_file_error : FileError → Response Reply
write_file_error disabled =
    failed 404 (codes "files_disabled") (codes "file browsing is not configured")
write_file_error root_not_found =
    failed 404 (codes "root_not_found") (codes "fileapi: root not found")
write_file_error invalid_base =
    failed 409 (codes "cwd_invalid") (codes "fileapi: invalid base path")
write_file_error path_not_found = failed 404 (codes "not_found") (codes "fileapi: path not found")
write_file_error forbidden =
    failed 403 (codes "forbidden") (codes "fileapi: path outside allowed root")
write_file_error not_directory =
    failed 400 (codes "not_directory") (codes "fileapi: path is not a directory")
write_file_error not_text = failed 400 (codes "not_text") (codes "fileapi: file is not text")
write_file_error too_large =
    failed 413 (codes "file_too_large") (codes "fileapi: file is too large")
write_file_error (invalid_config f) =
    failed 500 (codes "internal_error") (codes "file operation failed")
write_file_error (io e) = failed 500 (codes "internal_error") (codes "file operation failed")

abbrev pub list_answer : Outcome ListResult → Response Reply
list_answer (good l) = replied 200 (file_list l)
list_answer (bad e) = write_file_error e

abbrev pub document_answer : Outcome Document → Response Reply
document_answer (good d) = replied 200 (file_document d)
document_answer (bad e) = write_file_error e

unfoldable pub handle_file_roots : FileBrowser → Response Reply
unfolding root_infos
handle_file_roots b =
    replied 200 (file_roots (elim b.service [ none ↦ [] | some s ↦ root_infos s.roots ]))

abbrev pub root_required : Response Reply
root_required = failed 400 (codes "invalid_request") (codes "root is required")

pub list_with : FileBrowser → Option Service → Text → Text → Response Reply
unfolding write_file_error list_files
list_with b none root path = write_file_error disabled
list_with b (some s) root path =
    if str_eq root [] then root_required else list_answer (list_files b.fs s.roots root path)

unfoldable pub handle_file_list : FileBrowser → Text → Text → Response Reply
unfolding list_with
handle_file_list b root path = list_with b b.service root path

pub read_with : FileBrowser → Option Service → Text → Text → Response Reply
unfolding write_file_error read
read_with b none root path = write_file_error disabled
read_with b (some s) root path =
    if str_eq root [] then root_required else document_answer (read b.fs b.shift_jis s root path)

unfoldable pub handle_file_read : FileBrowser → Text → Text → Response Reply
unfolding read_with
handle_file_read b root path = read_with b b.service root path

unfoldable pub session_root_id : Text → Text
session_root_id id = codes "session:" ++ id

abbrev pub cwd_unknown : Response Reply
cwd_unknown =
    failed 409 (codes "cwd_unknown") (codes "shell has not yet reported a working directory")

abbrev pub list_of_session : Text → Outcome ListResult → Response Reply
list_of_session id (good l) = replied 200 (file_list (record l { root = session_root_id id }))
list_of_session id (bad e) = write_file_error e

abbrev pub document_of_session : Text → Outcome Document → Response Reply
document_of_session id (good d) =
    replied 200 (file_document (record d { root = session_root_id id }))
document_of_session id (bad e) = write_file_error e

pub session_list_with : FileBrowser → Option Service → Result Session → Text → Text → Response Reply
unfolding write_file_error session_root_id list_at
session_list_with b none r id path = write_file_error disabled
session_list_with b (some files) (err e) id path = failed 404 (codes "not_found") (error_text e)
session_list_with b (some files) (ok s) id path =
    if str_eq s.cwd [] then cwd_unknown else list_of_session id (list_at b.fs s.cwd path)

unfoldable pub handle_session_file_list : FileBrowser → Manager → Text → Text → Response Reply
unfolding session_list_with get
handle_session_file_list b m id path = session_list_with b b.service (get m id) id path

pub session_read_with : FileBrowser → Option Service → Result Session → Text → Text → Response Reply
unfolding write_file_error session_root_id read_at
session_read_with b none r id path = write_file_error disabled
session_read_with b (some files) (err e) id path = failed 404 (codes "not_found") (error_text e)
session_read_with b (some files) (ok s) id path =
    if str_eq s.cwd []
    then cwd_unknown
    else document_of_session id (read_at b.fs b.shift_jis files s.cwd path)

unfoldable pub handle_session_file_read : FileBrowser → Manager → Text → Text → Response Reply
unfolding session_read_with get
handle_session_file_read b m id path = session_read_with b b.service (get m id) id path
