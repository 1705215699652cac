-- ===== src/Pipeline/Flush.antt =====
-- internal/pipeline/pipeline.go: flush and send, by which a batch reaches the sink and only then the
-- database. The sink is a parameter (internal/reporter/reporter.go has its interface).
pub mod Verdicts
pub mod Accepted
use s3nitor.Prelude.{
  ℕ, zero, suc, String, str_eq, Bool, ◌||◌, Option, none, some, List, [], ◌∷◌, any, if◌then◌else◌,
}
use s3nitor.Scanner.{Finding, GoError, Time, hash_of, zero_time}
use s3nitor.Table.{Write, failed, done}
use s3nitor.Ledger.{TaskTable, mark_done}
use s3nitor.Records.{FileRecord, RecordTable, upsert_file_record}
use s3nitor.Async.Worker.{settle}

-- A Reporter over the states of its sink. `report_batch` is there if it is a BatchReporter too.
pub record Reporter (S : Type 0) : Type 0 where
  pub report : Finding → S → Option GoError × S
  pub report_batch : Option (List Finding → S → Option GoError × S)

-- One call for each document, up to the first error.
unfoldable pub send_each :
    {S : Type 0} → (Finding → S → Option GoError × S) → List Finding → S → Option GoError × S
send_each report [] s = (none, s)
send_each report (f ∷ fs) s =
    let (err, s') = report f s in elim err [ some e ↦ (some e, s') | none ↦ send_each report fs s' ]

unfoldable pub send : {S : Type 0} → Reporter S → List Finding → S → Option GoError × S
unfolding send_each
send rep batch s = elim rep.report_batch [
  | some report_batch ↦ report_batch batch s
  | none ↦ send_each rep.report batch s
]

unfoldable pub record_of : Finding → FileRecord
record_of f = record {
  file_id = f.file_id;
  bucket = f.bucket;
  object_key = f.key;
  version = f.version;
  size = f.size;
  md5 = hash_of "md5" f.hashes;
  sha1 = hash_of "sha1" f.hashes;
  sha256 = hash_of "sha256" f.hashes;
  last_modified = zero_time;
  fetched_at = f.scanned_at;
  created_at = zero_time;
  updated_at = zero_time;
}

unfoldable pub is_left_out : List String → Finding → Bool
is_left_out recorded f = any (str_eq f.file_id) recorded || str_eq f.scanner "size_gate"

module _ (files : RecordTable) (tasks : TaskTable) where
  pub record Store : Type 0 where
    pub records : files.State
    pub ledger : tasks.State

  -- The body of the loop for a document that is not left out, with two readings of the clock.
  unfoldable pub record_one : Finding → Time → Time → Store → Store
  record_one f t u s = elim (upsert_file_record files (record_of f) t s.records) [
    | failed e ↦ s
    | done records n ↦ record {
      records = records;
      ledger = settle (mark_done tasks f.file_id f.scanner u s.ledger) s.ledger;
    }
  ]

  -- The loop; `clock` gives the readings in their order, and `n` were taken.
  unfoldable pub record_all : (ℕ → Time) → ℕ → List String → List Finding → Store → Store
  record_all clock n recorded [] s = s
  record_all clock n recorded (f ∷ fs) s =
      let out = is_left_out recorded f in
      record_all clock (if out then n else suc (suc n))
        (if out then recorded else f.file_id ∷ recorded) fs
        (if out then s else record_one f (clock n) (clock (suc n)) s)

  unfoldable pub flush :
      {S : Type 0} → Reporter S → (ℕ → Time) → List Finding → Store → S → Store × S
  unfolding record_all send
  flush rep clock batch s sink =
      let (err, sink') = send rep batch sink in
      elim err [ some e ↦ (s, sink') | none ↦ (record_all clock 0 [] batch s, sink') ]
