-- ===== src/Source/Minio.antt =====
-- internal/source/decoder/minio.go: the references that a MinIO notification names. JSON, times in
-- the form of RFC 3339 and the texts of `%q` are parameters; url.QueryUnescape is written out.
-- A key is a list of bytes, of which `text` makes a text.
pub mod Escapes
pub mod Notices
use s3nitor.Prelude.{
  ℕ, ◌*◌, ◌+◌, ◌-◌, String, str_append, str_eq, Bool, true, false, ◌&&◌, ◌||◌, Option, none, some,
  List, [], ◌∷◌, ◌++◌, take, leb, ◌==◌, if◌then◌else◌,
}
use text.Mathlib.Text.{starts_with}
use s3nitor.Prelude.Int.{ℤ}
use s3nitor.Scanner.{Time, zero_time, GoError, failure, wrapped}
use s3nitor.Fallible.{Try, ok, err, ◌>>=◌, wrap_error}
use s3nitor.Bytes.{trim_space}
use s3nitor.Pipeline.Discover.{ObjectRef}

pub record S3Record : Type 0 where
  pub event_name : String
  pub event_source : String
  pub event_time : String
  pub bucket_name : String
  pub key : List ℕ
  pub size : ℤ
  pub etag : String
  pub sequencer : String

unfoldable pub is_hex : ℕ → Bool
is_hex c = (leb b'0' c && leb c b'9') || (leb b'a' c && leb c b'f') || (leb b'A' c && leb c b'F')

unfoldable pub unhex : ℕ → ℕ
unhex c = if leb c b'9' then c - b'0' else (if leb b'a' c then c + 10 - b'a' else c + 10 - b'A')

unfoldable pub plain : ℕ → ℕ
plain c = if c == b'+' then b' ' else c

-- What json.Unmarshal makes of a payload of either envelope, and the other parameters.
pub record Readers : Type 0 where
  pub wrappers : List ℕ → Try (List (List S3Record))
  pub records : List ℕ → Try (List S3Record)
  pub time_of : String → Option Time
  pub quoted : List ℕ → String
  pub text : List ℕ → String

unfoldable pub flatten : List (List S3Record) → List S3Record
flatten [] = []
flatten (event ∷ events) = event ++ flatten events

unfoldable pub is_created : S3Record → Bool
is_created r = starts_with r.event_name "s3:ObjectCreated:"

module _ (read : Readers) where
  bad_escape : List ℕ → GoError
  bad_escape s = failure (str_append "invalid URL escape " (read.quoted (take 3 s)))

  add_byte : ℕ → Try (List ℕ) → Try (List ℕ)
  add_byte c t = t >>= λ s. ok (c ∷ s)

  -- url.QueryUnescape.
  unfoldable pub query_unescape : List ℕ → Try (List ℕ)
  unfolding bad_escape add_byte is_hex unhex plain
  query_unescape [] = ok []
  query_unescape (c ∷ []) = if c == b'%' then err (bad_escape (c ∷ [])) else ok (plain c ∷ [])
  query_unescape (c ∷ d ∷ []) =
      let rest = query_unescape (d ∷ []) in
      if c == b'%' then err (bad_escape (c ∷ d ∷ [])) else add_byte (plain c) rest
  query_unescape (c ∷ d ∷ e ∷ s) =
      let behind = query_unescape s in
      let rest = query_unescape (d ∷ e ∷ s) in
      if c == b'%'
      then (if is_hex d && is_hex e
          then add_byte (unhex d * 16 + unhex e) behind
          else err (bad_escape (c ∷ d ∷ e ∷ s)))
      else add_byte (plain c) rest

  unfoldable pub decode_key : List ℕ → Try (List ℕ)
  unfolding query_unescape
  decode_key raw = query_unescape raw

  unfoldable pub ref_of : S3Record → List ℕ → ObjectRef
  ref_of r key = record {
    bucket = r.bucket_name;
    key = read.text key;
    version = if str_eq r.etag "" then r.sequencer else r.etag;
    size = r.size;
    last_modified = elim (read.time_of r.event_time) [ some t ↦ t | none ↦ zero_time ];
  }

  key_error : List ℕ → GoError → GoError
  key_error raw e =
      wrapped (str_append "minio: decoding key " (str_append (read.quoted raw) ": ")) e

  unfoldable pub refs_from : List S3Record → Try (List ObjectRef)
  unfolding is_created ref_of key_error decode_key
  refs_from [] = ok []
  refs_from (r ∷ rs) =
      let rest = refs_from rs in
      if is_created r
      then (do
        key ← wrap_error (key_error r.key) (decode_key r.key)
        refs ← rest
        ok (ref_of r key ∷ refs))
      else rest

  -- The envelope is told by the first byte that is not a space.
  unfoldable pub records_in : List ℕ → ℕ → Try (List S3Record)
  unfolding flatten
  records_in payload c =
      if c == b'['
      then (wrap_error (wrapped "minio: decoding Redis envelope: ") (read.wrappers payload)
          >>= λ events. ok (flatten events))
      else (if c == b'{'
          then wrap_error (wrapped "minio: decoding Records envelope: ") (read.records payload)
          else err (failure "minio: payload is neither an object nor an array"))

  unfoldable pub decode : List ℕ → Try (List ObjectRef)
  unfolding records_in refs_from
  decode payload = elim (trim_space payload) [
    | [] ↦ ok []
    | c ∷ s ↦ records_in payload c >>= refs_from
  ]
