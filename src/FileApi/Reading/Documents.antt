-- ===== src/FileApi/Reading/Documents.antt =====
-- relay/internal/fileapi/service.go: when a document is read, and which.
use httpssh.Base.{
  ℕ, ◌≡◌, ◌↔◌, ◌≤◌, refl, sym, ap, subst, Bool, true, false, Option, ltb, ltb-false→le,
  le→ltb-false, if◌then◌else◌, Text,
}
use httpssh.FileApi.{
  FileSystem, FileInfo, not_text, too_large, Outcome, good, bad, Found, found, missing, broken,
  Service, Document, resolve_base, normalize_base,
}
use httpssh.FileApi.Jail.{InJail, IsJailed, resolve_base-IsJailed}
use httpssh.FileApi.Decoding.{decode_text}
use httpssh.FileApi.Decoding.Soundness.{Decoded, decode_text-Decoded}
use httpssh.FileApi.Reading.{
  document_of, read_decoded, read_bytes, read_stat, read_resolved, read_in, read_at,
}

-- A document of a file below the directory: no larger than the limit, by the size that the host gives, and
-- decoded from its bytes.
pub record IsReading (fs : FileSystem) (shift_jis : Text → Option Text) (s : Service)
    (base_path path : Text) (d : Document) : Type 0 where
  pub base : Text
  pub abs : Text
  pub way : Text
  pub info : FileInfo
  pub bytes : Text
  pub text : Text
  pub encoding : Text
  pub from_base : normalize_base fs base_path ≡ good base
  pub resolved : resolve_base fs base path ≡ good (abs, way)
  pub jailed : InJail fs base path abs way
  pub there : fs.stat abs ≡ found info
  pub is_file : info.is_dir ≡ false
  pub in_limit : info.file_size ≤ s.max_file_bytes
  pub read_from : fs.read_file abs ≡ found bytes
  pub decoded_from : decode_text shift_jis bytes ≡ good (text, encoding)
  pub decoded : Decoded text encoding
  pub shown : d ≡ document_of fs shift_jis abs way info (text, encoding)

module _ (fs : FileSystem) (shift_jis : Text → Option Text) (s : Service) (base_path path : Text)
    (d : Document) where
  reads_decoded :
      (abs way : Text) (info : FileInfo) (o : Outcome (Text × Text))
      → read_decoded fs shift_jis abs way info o ≡ good d
      → (t : Text × Text) × (o ≡ good t) × (d ≡ document_of fs shift_jis abs way info t)
  unfolding read_decoded
  reads_decoded abs way info (bad e) h = cc
  reads_decoded abs way info (good (t, e)) h = ((t, e), refl, cc)

  reads_bytes :
      (abs way : Text) (info : FileInfo) (f : Found Text)
      → read_bytes fs shift_jis abs way info f ≡ good d
      → (bytes : Text) × (f ≡ found bytes)
        × (read_decoded fs shift_jis abs way info (decode_text shift_jis bytes) ≡ good d)
  unfolding read_bytes
  reads_bytes abs way info missing h = cc
  reads_bytes abs way info (broken e) h = cc
  reads_bytes abs way info (found bytes) h = (bytes, refl, h)

  reads_stat :
      (limit : ℕ) (abs way : Text) (f : Found FileInfo)
      → read_stat fs shift_jis limit abs way f ≡ good d
      → (info : FileInfo) × (f ≡ found info)
        × (info.is_dir ≡ false)
        × (info.file_size ≤ limit)
        × (read_bytes fs shift_jis abs way info (fs.read_file abs) ≡ good d)
  unfolding read_stat
  reads_stat limit abs way missing h = cc
  reads_stat limit abs way (broken e) h = cc
  reads_stat limit abs way (found info) h = split info.is_dir (ltb limit info.file_size) refl refl h
    where
      split :
          (a b : Bool)
          → info.is_dir ≡ a
          → ltb limit info.file_size ≡ b
          → (if a
              then bad not_text
              else if b
              then bad too_large
              else read_bytes fs shift_jis abs way info (fs.read_file abs))
            ≡ good d
          → (i : FileInfo) × (found info ≡ found i)
            × (i.is_dir ≡ false)
            × (i.file_size ≤ limit)
            × (read_bytes fs shift_jis abs way i (fs.read_file abs) ≡ good d)
      split true b p q k = cc
      split false true p q k = cc
      split false false p q k = (info, refl, p, ltb-false→le _ _ q, k)

  whole-IsReading :
      (base abs way : Text)
      → normalize_base fs base_path ≡ good base
      → resolve_base fs base path ≡ good (abs, way)
      → read_stat fs shift_jis s.max_file_bytes abs way (fs.stat abs) ≡ good d
      → IsReading fs shift_jis s base_path path d
  whole-IsReading base abs way n r h =
      let (info, at, f, l, k) = reads_stat s.max_file_bytes abs way (fs.stat abs) h in
      let (bytes, b, j) = reads_bytes abs way info (fs.read_file abs) k in
      let ((t, e), dec, same) = reads_decoded abs way info (decode_text shift_jis bytes) j in
      record {
        base = base;
        abs = abs;
        way = way;
        info = info;
        bytes = bytes;
        text = t;
        encoding = e;
        from_base = n;
        resolved = r;
        jailed = subst (IsJailed fs base path) r (resolve_base-IsJailed fs base path);
        there = at;
        is_file = f;
        in_limit = l;
        read_from = b;
        decoded_from = dec;
        decoded = decode_text-Decoded shift_jis bytes t e dec;
        shown = same;
      }

  IsReading-of_read :
      read_at fs shift_jis s base_path path ≡ good d → IsReading fs shift_jis s base_path path d
  unfolding read_at read_in read_resolved
  IsReading-of_read h = from (normalize_base fs base_path) refl h
    where
      from :
          (o : Outcome Text)
          → normalize_base fs base_path ≡ o
          → read_in fs shift_jis s.max_file_bytes o path ≡ good d
          → IsReading fs shift_jis s base_path path d
      from (bad x) n k = cc
      from (good base) n k = resolved (resolve_base fs base path) refl k
        where
          resolved :
              (o : Outcome (Text × Text))
              → resolve_base fs base path ≡ o
              → read_resolved fs shift_jis s.max_file_bytes o ≡ good d
              → IsReading fs shift_jis s base_path path d
          resolved (bad x) r j = cc
          resolved (good (abs, way)) r j = whole-IsReading base abs way n r j

  read_of :
      IsReading fs shift_jis s base_path path d → read_at fs shift_jis s base_path path ≡ good d
  unfolding read_at read_in read_resolved read_stat read_bytes read_decoded
  read_of i =
      let limit = le→ltb-false _ _ i.in_limit in
      rw (i.from_base) (
        rw (i.resolved) (
          rw (i.there) (
            rw (i.is_file)
              (rw limit (rw (i.read_from) (rw (i.decoded_from) (ap good (sym i.shown))))))))

-- A document is read exactly when its path resolves below the session's directory to a file that is no
-- larger than the limit, and the bytes of it decode; then it shows what they decode to, which is valid
-- UTF-8 without control characters, under the way to the file.
pub read_at_iff :
    (fs : FileSystem) (shift_jis : Text → Option Text) (s : Service) (base_path path : Text)
    (d : Document)
    → (read_at fs shift_jis s base_path path ≡ good d) ↔ IsReading fs shift_jis s base_path path d
read_at_iff fs shift_jis s base_path path d =
    (IsReading-of_read fs shift_jis s base_path path d, read_of fs shift_jis s base_path path d)
