-- ===== src/Pipeline/Discover.antt =====
-- internal/pipeline/pipeline.go, the discover stage (runDiscover and coverageGap), with the object
-- reference of internal/source/source.go. A step is one case of the select; what it sends to the
-- fetchers and to the publisher are lists. The context's error is a parameter.
pub mod Coverage
pub mod Parts
pub mod Handled
pub mod Accounts
use s3nitor.Prelude.{
  ℕ, suc, String, str_eq, Bool, true, false, ◌&&◌, Option, none, some, List, [], ◌∷◌, ◌++◌, map,
  any, length, leb, ◌==◌, if◌then◌else◌,
}
use s3nitor.Prelude.Int.{ℤ, pos, ltb_ℤ}
use s3nitor.Scanner.{Time, GoError, Finding, severity_low, bool, int, text}
use s3nitor.Hashing.{file_id}
use s3nitor.Records.{RecordTable, seen, seen_failed, seen_file_ids}

pub record ObjectRef : Type 0 where
  pub bucket : String
  pub key : String
  pub version : String
  pub size : ℤ
  pub last_modified : Time

pub record Job : Type 0 where
  pub ref : ObjectRef
  pub file_id : String

unfoldable pub coverage_gap : ObjectRef → String → String → ℤ → Time → Finding
coverage_gap ref id reason limit now = record {
  file_id = id;
  bucket = ref.bucket;
  key = ref.key;
  version = ref.version;
  size = ref.size;
  hashes = [];
  scanner = "size_gate";
  rules_version = "";
  is_match = false;
  severity = severity_low;
  detail =
      ("scanned", bool false)
      ∷ ("reason", text reason)
      ∷ ("object_size", int ref.size)
      ∷ ("limit", int limit)
      ∷ [];
  scanned_at = now;
  error = "";
}

-- What discovery decides about a reference.
pub data Decision : Type 0 where
  already_scanned too_large wanted : Decision

unfoldable pub decide : ℤ → Bool → ObjectRef → Decision
decide max_object_size is_seen ref =
    if is_seen
    then already_scanned
    else (if ltb_ℤ (pos 0) max_object_size && ltb_ℤ max_object_size ref.size
        then too_large
        else wanted)

pub record Discovered : Type 0 where
  pub jobs : List Job
  pub notices : List Finding
  pub listed : ℕ
  pub skipped : ℕ

unfoldable pub skip : Discovered → Discovered
skip d = record d { skipped = suc d.skipped }

unfoldable pub notify : Finding → Discovered → Discovered
notify f d = record d { notices = d.notices ++ f ∷ [] }

unfoldable pub hand_over : Job → Discovered → Discovered
hand_over j d = record d { jobs = d.jobs ++ j ∷ [] }

-- What surrounds a step: the rows of file_records, whether each send goes through before the context
-- ends, and the clock's readings.
pub record Moment (files : RecordTable) : Type 0 where
  pub records : files.State
  pub sends : ℕ → Bool
  pub clock : ℕ → Time

pub data Event : Type 0 where
  arrive : ObjectRef → Event
  timeout closed cancelled : Event

unfoldable pub dedup_batch : ℕ
dedup_batch = 500

pub record Stage : Type 0 where
  pub batch : List ObjectRef
  pub timer : Bool
  pub discovered : Discovered

unfoldable pub id_of : (String → String) → ObjectRef → String
unfolding file_id
id_of sha256_hex ref = file_id sha256_hex ref.bucket ref.key ref.version

unfoldable pub listed_one : ObjectRef → Stage → Stage
listed_one ref st =
    let batch = st.batch ++ ref ∷ [] in
    record {
      batch = batch;
      timer = if length batch == 1 then true else st.timer;
      discovered = record st.discovered { listed = suc st.discovered.listed };
    }

after_step : Option GoError × Stage → (Stage → Option GoError × Stage) → Option GoError × Stage
after_step (some e, st) rest = (some e, st)
after_step (none, st) rest = rest st

module _ (files : RecordTable) (sha256_hex : String → String) (max_object_size : ℤ)
    (ctx_err : GoError) where
  -- The loop of flush over the batch, after `n` sends.
  unfoldable pub sort_refs :
      Moment files → List String → ℕ → List ObjectRef → Discovered → Option GoError × Discovered
  unfolding decide id_of skip notify hand_over coverage_gap
  sort_refs at known n [] d = (none, d)
  sort_refs at known n (ref ∷ refs) d =
      elim (decide max_object_size (any (str_eq (id_of sha256_hex ref)) known) ref) [
        | already_scanned ↦ sort_refs at known n refs (skip d)
        | too_large ↦ elim (at.sends n) [
          | true ↦ sort_refs at known (suc n) refs (
              notify
                (coverage_gap ref (id_of sha256_hex ref) "exceeds_max_object_size" max_object_size
                  (at.clock n))
                (skip d))
          | false ↦ (some ctx_err, skip d)
        ]
        | wanted ↦ elim (at.sends n) [
          | true ↦
              sort_refs at known (suc n) refs
                (hand_over (record { ref = ref; file_id = id_of sha256_hex ref }) d)
          | false ↦ (some ctx_err, d)
        ]
      ]

  unfoldable pub flush : Moment files → List ObjectRef → Discovered → Option GoError × Discovered
  unfolding sort_refs
  flush at [] d = (none, d)
  flush at (ref ∷ refs) d =
      elim (seen_file_ids files (map (id_of sha256_hex) (ref ∷ refs)) at.records) [
        | seen known ↦ sort_refs at known 0 (ref ∷ refs) d
        | seen_failed e ↦ (some e, d)
      ]

  -- The batch is emptied whatever comes of the flush.
  unfoldable pub flush_all : Moment files → Stage → Option GoError × Stage
  unfolding flush
  flush_all at st =
      let (err, d) = flush at st.batch st.discovered in
      (err, record { batch = []; timer = false; discovered = d })

  -- One case of the select, for a loop that goes on: an error ends it.
  unfoldable pub discover_step : Moment files → Stage → Event → Option GoError × Stage
  unfolding flush_all listed_one dedup_batch
  discover_step at st (arrive ref) =
      if leb dedup_batch (length (listed_one ref st).batch)
      then flush_all at (listed_one ref st)
      else (none, listed_one ref st)
  discover_step at st timeout = if st.timer then flush_all at st else (none, st)
  discover_step at st closed = flush_all at st
  discover_step at st cancelled = (some ctx_err, record st { timer = false })

  unfoldable pub run_discover : List (Moment files × Event) → Stage → Option GoError × Stage
  unfolding after_step discover_step
  run_discover [] st = (none, st)
  run_discover ((at, closed) ∷ es) st = discover_step at st closed
  run_discover ((at, cancelled) ∷ es) st = discover_step at st cancelled
  run_discover ((at, e) ∷ es) st = after_step (discover_step at st e) (run_discover es)
