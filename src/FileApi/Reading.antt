-- ===== src/FileApi/Reading.antt =====
-- relay/internal/fileapi/service.go: reading a document.
pub mod Documents
use httpssh.Base.{
  ℕ, Bool, true, false, Option, none, some, List, [], ◌∷◌, ltb, if◌then◌else◌, Text, codes,
}
use httpssh.FileApi.{
  FileSystem, FileInfo, disabled, root_not_found, path_not_found, not_text, too_large, io, Outcome,
  good, bad, Found, found, missing, broken, Root, Service, Document, resolve_base, normalize_base,
  find_root,
}
use httpssh.FileApi.Decoding.{decode_text}

module _ (fs : FileSystem) (shift_jis : Text → Option Text) where
  abbrev pub document_of : Text → Text → FileInfo → Text × Text → Document
  document_of abs r info (content, encoding) = record {
    root = [];
    path = fs.to_slash r;
    name = fs.base_name abs;
    size = info.file_size;
    modified_at = info.mod_time;
    encoding = encoding;
    content = content;
  }

  pub read_decoded : Text → Text → FileInfo → Outcome (Text × Text) → Outcome Document
  read_decoded abs r info (bad e) = bad e
  read_decoded abs r info (good text) = good (document_of abs r info text)

  pub read_bytes : Text → Text → FileInfo → Found Text → Outcome Document
  unfolding read_decoded decode_text
  read_bytes abs r info missing = bad (io (codes "ReadFile"))
  read_bytes abs r info (broken e) = bad (io e)
  read_bytes abs r info (found bytes) = read_decoded abs r info (decode_text shift_jis bytes)

  pub read_stat : ℕ → Text → Text → Found FileInfo → Outcome Document
  unfolding read_bytes
  read_stat limit abs r missing = bad path_not_found
  read_stat limit abs r (broken e) = bad (io e)
  read_stat limit abs r (found info) =
      if info.is_dir
      then bad not_text
      else if ltb limit info.file_size
      then bad too_large
      else read_bytes abs r info (fs.read_file abs)

  -- `readResolved`, on what `resolveBase` gave.
  pub read_resolved : ℕ → Outcome (Text × Text) → Outcome Document
  unfolding read_stat
  read_resolved limit (bad e) = bad e
  read_resolved limit (good (abs, r)) = read_stat limit abs r (fs.stat abs)

  pub read_in : ℕ → Outcome Text → Text → Outcome Document
  unfolding read_resolved resolve_base
  read_in limit (bad e) path = bad e
  read_in limit (good base) path = read_resolved limit (resolve_base fs base path)

  -- `ReadAt`
  unfoldable pub read_at : Service → Text → Text → Outcome Document
  unfolding read_in normalize_base
  read_at s base_path path = read_in s.max_file_bytes (normalize_base fs base_path) path

  named_document : Text → Outcome Document → Outcome Document
  named_document id (good d) = good (record d { root = id })
  named_document id (bad e) = bad e

  read_root : ℕ → Text → Option Root → Outcome Document
  unfolding named_document read_resolved resolve_base
  read_root limit path none = bad root_not_found
  read_root limit path (some r) =
      named_document r.id (read_resolved limit (resolve_base fs r.path path))

  -- `Read`
  unfoldable pub read : Service → Text → Text → Outcome Document
  unfolding read_root find_root
  read s root_id path = elim s.roots [
    | [] ↦ bad disabled
    | r ∷ rs ↦ read_root s.max_file_bytes path (find_root root_id (r ∷ rs))
  ]
