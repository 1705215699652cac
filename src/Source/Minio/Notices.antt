-- ===== src/Source/Minio/Notices.antt =====
-- minio.go: the references that Decode makes of the notifications of given objects.
use s3nitor.Prelude.{
  ℕ, ◌<◌, String, str_eq, if◌then◌else◌, Option, none, some, ◌≡◌, refl, ◌∙◌, ◌⊎◌, inl, inr, Bool,
  Bool-cases, true, false, List, [], ◌∷◌, ◌++◌, map, All, keep,
}
use s3nitor.Prelude.Int.{ℤ}
use s3nitor.Scanner.{GoError, Time, zero_time}
use s3nitor.Fallible.{ok, err, Try-cases}
use s3nitor.Bytes.{trim_space}
use s3nitor.Pipeline.Discover.{ObjectRef}
use s3nitor.Source.Minio.{
  Readers, S3Record, query_unescape, decode_key, ref_of, refs_from, records_in, decode, flatten,
  is_created, key_error,
}
use s3nitor.Source.Minio.Escapes.{query_escape, unescape-escape}

-- What happened to an object, with MinIO's name for it.
pub data Event : Type 0 where
  created_put created_post created_copy created_multipart : Event
  created_put_retention created_put_legal_hold created_put_tagging : Event
  removed_delete removed_marker accessed_get accessed_head scanned_many_versions : Event

abbrev pub name_of : Event → String
name_of created_put = "s3:ObjectCreated:Put"
name_of created_post = "s3:ObjectCreated:Post"
name_of created_copy = "s3:ObjectCreated:Copy"
name_of created_multipart = "s3:ObjectCreated:CompleteMultipartUpload"
name_of created_put_retention = "s3:ObjectCreated:PutRetention"
name_of created_put_legal_hold = "s3:ObjectCreated:PutLegalHold"
name_of created_put_tagging = "s3:ObjectCreated:PutTagging"
name_of removed_delete = "s3:ObjectRemoved:Delete"
name_of removed_marker = "s3:ObjectRemoved:DeleteMarkerCreated"
name_of accessed_get = "s3:ObjectAccessed:Get"
name_of accessed_head = "s3:ObjectAccessed:Head"
name_of scanned_many_versions = "s3:Scanner:ManyVersions"

abbrev pub is_creation : Event → Bool
is_creation removed_delete = false
is_creation removed_marker = false
is_creation accessed_get = false
is_creation accessed_head = false
is_creation scanned_many_versions = false
is_creation e = true

-- An object that an event is about, under its own key.
pub record Stored : Type 0 where
  pub event : Event
  pub event_time : String
  pub bucket : String
  pub key : List ℕ
  pub size : ℤ
  pub etag : String
  pub sequencer : String

-- Its record in a notification.
abbrev pub notice : Stored → S3Record
notice o = record {
  event_name = name_of o.event;
  event_source = "minio:s3";
  event_time = o.event_time;
  bucket_name = o.bucket;
  key = query_escape o.key;
  size = o.size;
  etag = o.etag;
  sequencer = o.sequencer;
}

abbrev HasBytes : Stored → Type 0
HasBytes o = All (λ c. c < 256) o.key

abbrev pub was_created : Stored → Bool
was_created o = is_creation o.event

is_created-notice : (o : Stored) → is_created (notice o) ≡ was_created o
unfolding is_created
is_created-notice o = by_event o.event o
  where
    by_event :
        (e : Event) (o : Stored) → is_created (notice (record o { event = e })) ≡ is_creation e
    by_event created_put o = refl
    by_event created_post o = refl
    by_event created_copy o = refl
    by_event created_multipart o = refl
    by_event created_put_retention o = refl
    by_event created_put_legal_hold o = refl
    by_event created_put_tagging o = refl
    by_event removed_delete o = refl
    by_event removed_marker o = refl
    by_event accessed_get o = refl
    by_event accessed_head o = refl
    by_event scanned_many_versions o = refl

abbrev pub or_zero_time : Option Time → Time
or_zero_time none = zero_time
or_zero_time (some t) = t

module _ (read : Readers) where
  -- The reference of an object: its own bucket, unescaped key and size, the time of the event, and
  -- as its version the ETag, or the sequencer of the event of an object without one.
  abbrev pub reference : Stored → ObjectRef
  reference o = record {
    bucket = o.bucket;
    key = read.text o.key;
    version = if str_eq o.etag "" then o.sequencer else o.etag;
    size = o.size;
    last_modified = or_zero_time (read.time_of o.event_time);
  }

  -- A payload of either envelope that carries these records.
  abbrev Carries : List ℕ → ℕ → List S3Record → Type 0
  Carries payload c rs =
      ((c ≡ b'[')
        × ((events : List (List S3Record)) × (read.wrappers payload ≡ ok events)
            × (flatten events ≡ rs)))
      ⊎ ((c ≡ b'{') × (read.records payload ≡ ok rs))

  records_of :
      (payload : List ℕ) (c : ℕ) (rs : List S3Record)
      → Carries payload c rs
      → records_in read payload c ≡ ok rs
  unfolding records_in
  records_of payload c rs (inl (e, (events, w, f))) = rw (e, w, f) refl
  records_of payload c rs (inr (e, w)) = rw (e, w) refl

  refs_of_notices :
      (os : List Stored)
      → All HasBytes os
      → refs_from read (map notice os) ≡ ok (map reference (keep was_created os))
  unfolding refs_from decode_key ref_of
  refs_of_notices [] h = refl
  refs_of_notices (o ∷ os) (h, hs) = elim (Bool-cases (was_created o)) [
    | inl made ↦
        rw
          (
            is_created-notice o ∙ made,
            made,
            refs_from,
            unescape-escape read o.key h,
            refs_of_notices os hs,
          )
          refl
    | inr other ↦ rw (is_created-notice o ∙ other, other, refs_from, refs_of_notices os hs) refl
  ]

  -- From either envelope, Decode makes exactly one reference of each notified object that was
  -- created, in their order: its bucket, its size, and the key that it has before it is escaped.
  pub decode_names_created :
      (payload : List ℕ) (c : ℕ) (s : List ℕ) (os : List Stored)
      → trim_space payload ≡ c ∷ s
      → All HasBytes os
      → Carries payload c (map notice os)
      → decode read payload ≡ ok (map reference (keep was_created os))
  unfolding decode
  decode_names_created payload c s os e h carries =
      rw (e, decode, records_of payload c (map notice os) carries) (refs_of_notices os h)

  refs_from-err :
      (before : List S3Record) (r : S3Record) (after : List S3Record) (e : GoError)
      → is_created r ≡ true
      → query_unescape read r.key ≡ err e
      → (e' : GoError) × (refs_from read (before ++ r ∷ after) ≡ err e')
  unfolding refs_from decode_key
  refs_from-err [] r after e made bad = (key_error read r.key e, rw (made, refs_from, bad) refl)
  refs_from-err (q ∷ qs) r after e made bad =
      let (e', h) = refs_from-err qs r after e made bad in
      elim (Bool-cases (is_created q)) [
        | inr other ↦ (e', rw (other, refs_from) h)
        | inl new ↦ elim (Try-cases (query_unescape read q.key)) [
          | inl (k, good) ↦ (e', rw (new, refs_from, good, h) refl)
          | inr (e'', worse) ↦ (key_error read q.key e'', rw (new, refs_from, worse) refl)
        ]
      ]

  -- If the key of one created object is not well escaped, Decode refuses the payload, with all other
  -- references in it.
  decode_refuses_bad_key :
      (payload : List ℕ) (c : ℕ) (s : List ℕ) (before : List S3Record) (r : S3Record)
      (after : List S3Record) (e : GoError)
      → trim_space payload ≡ c ∷ s
      → Carries payload c (before ++ r ∷ after)
      → is_created r ≡ true
      → query_unescape read r.key ≡ err e
      → (e' : GoError) × (decode read payload ≡ err e')
  unfolding decode
  decode_refuses_bad_key payload c s before r after e h carries made bad =
      let (e', p) = refs_from-err before r after e made bad in
      (e', rw (h, decode, records_of payload c (before ++ r ∷ after) carries) p)
