-- ===== src/Async/Worker.antt =====
-- internal/async/worker.go: the worker that collects the verdicts of scans that were handed off.
-- The sandbox that a collector polls, the sink, the database and the texts that fmt makes are
-- parameters. Each reading of the clock is an argument.
pub mod Verdicts
pub mod Polling
pub mod Sweeps
use s3nitor.Prelude.{
  ℕ, String, str_append, str_eq, Bool, true, false, not, ◌&&◌, Option, none, some, List, [], ◌∷◌,
  ◌++◌, ◌-◌, ◌^◌, if◌then◌else◌,
}
use s3nitor.Prelude.Int.{ℤ, pos, negsuc, pos_part, ◌-ℤ◌, ltb_ℤ, leb_ℤ, eqb_ℤ}
use s3nitor.Scanner.{
  Time, Duration, Hashes, Result, GoError, failure, Finding, message, zero_time, empty_result,
}
use s3nitor.Table.{Write, failed, done, found, missing, look_failed}
use s3nitor.Ledger.{
  ScanTask, TaskTable, Claim, claimed, claim_failed, claim_pending, mark_done, mark_failed,
  reschedule_continuation,
}
use s3nitor.Records.{FileRecord, RecordTable, get_file_record}
use s3nitor.Async.Continuation.{Continuation, finding}

-- What a poll of a token returns: an error, "not yet", or the verdict.
pub data PollResult : Type 0 where
  poll_failed : GoError → PollResult
  not_done : PollResult
  verdict : Result → PollResult

pub record Collector : Type 0 where
  pub name : String
  pub poll : String → PollResult

pub record WorkerOptions : Type 0 where
  pub instance_name : String
  pub poll_interval : Duration
  pub sweep_every : Duration
  pub lease_for : Duration
  pub max_age : Duration
  pub batch : ℤ

pub record Worker : Type 0 where
  pub collectors : List Collector
  pub instance_name : String
  pub poll_interval : Duration
  pub sweep_every : Duration
  pub lease_for : Duration
  pub max_age : Duration
  pub batch : ℤ

-- `m[c.Name()] = c` for each collector: a later one of a name takes the place of an earlier one, so
-- the map is searched from the one that was added last.
unfoldable add_collectors : List Collector → List Collector → List Collector
add_collectors m [] = m
add_collectors m (c ∷ cs) = add_collectors (c ∷ m) cs

unfoldable pub collector_of : String → List Collector → Option Collector
collector_of name [] = none
collector_of name (c ∷ m) = if str_eq c.name name then some c else collector_of name m

unfoldable or_default : ℤ → ℤ → ℤ
or_default n default' = if leb_ℤ n (pos 0) then default' else n

unfoldable pub new_worker : List Collector → WorkerOptions → Worker
unfolding add_collectors or_default
new_worker cs o = record {
  collectors = add_collectors [] cs;
  instance_name = o.instance_name;
  poll_interval = o.poll_interval;
  sweep_every = or_default o.sweep_every (pos 60_000_000_000);
  lease_for = or_default o.lease_for (pos 300_000_000_000);
  max_age = o.max_age;
  batch = or_default o.batch (pos 50);
}

-- The texts of `%q` and of a printed duration.
pub record Texts : Type 0 where
  pub quoted : String → String
  pub printed : Duration → String

-- The clock's readings of one call: for the age, for the poll, in the finding, and in the ledger.
pub record Readings : Type 0 where
  pub at_age : Time
  pub at_poll : Time
  pub at_finding : Time
  pub at_write : Time

-- `time.Since` ends at the bounds of a Duration.
unfoldable pub time_since : Time → Time → Duration
time_since now t =
    let d = now -ℤ t in
    if ltb_ℤ (pos (2 ^ 63 - 1)) d
    then pos (2 ^ 63 - 1)
    else (if ltb_ℤ d (negsuc (2 ^ 63 - 1)) then negsuc (2 ^ 63 - 1) else d)

unfoldable pub is_abandoned : Worker → Time → Continuation → Bool
unfolding time_since
is_abandoned w now c =
    ltb_ℤ (pos 0) w.max_age
    && not (eqb_ℤ c.submitted_at zero_time)
    && ltb_ℤ w.max_age (time_since now c.submitted_at)

unfoldable pub is_early : Time → Continuation → Bool
is_early now c = not (eqb_ℤ c.poll_after zero_time) && ltb_ℤ now c.poll_after

unfoldable present : List (String × String) → Hashes
present [] = []
present ((k, v) ∷ m) = let rest = present m in if str_eq v "" then rest else (k, v) ∷ rest

unfoldable continuation_of : FileRecord → ScanTask → Continuation
unfolding present
continuation_of rec t = record {
  file_id = rec.file_id;
  bucket = rec.bucket;
  key = rec.object_key;
  version = rec.version;
  size = rec.size;
  hashes = present (("md5", rec.md5) ∷ ("sha1", rec.sha1) ∷ ("sha256", rec.sha256) ∷ []);
  scanner = t.scanner;
  rules_version = t.rules_version;
  token = t.resume_token;
  submitted_at = t.submitted_at;
  poll_after = t.next_attempt_at;
}

-- A write that fails is logged and changes nothing.
abbrev pub settle : {S : Type 0} → Write S → S → S
settle (failed e) s = s
settle (done t n) s = t

-- The sink: whether it takes a finding, given those that it has taken.
abbrev pub Sink : Type 0
Sink = Finding → List Finding → Option GoError

module _ (db : TaskTable) (files : RecordTable) (sink : Sink) (texts : Texts) (w : Worker) where
  -- The ledger, the file records, and the findings that the sink has taken, oldest first.
  pub record World : Type 0 where
    pub ledger : db.State
    pub records : files.State
    pub published : List Finding

  unfoldable pub reschedule : Continuation → Time → World → World
  reschedule c now s = record s {
    ledger =
        settle (reschedule_continuation db c.file_id c.scanner w.poll_interval now s.ledger)
          s.ledger;
  }

  close_row : Continuation → Option GoError → Time → World → World
  close_row c none now s = record s {
    ledger = settle (mark_done db c.file_id c.scanner now s.ledger) s.ledger;
  }
  close_row c (some e) now s = record s {
    ledger = settle (mark_failed db c.file_id c.scanner (message e) now s.ledger) s.ledger;
  }

  finished : Continuation → Option GoError → Readings → Finding → Option GoError → World → World
  unfolding close_row reschedule
  finished c scan_err r f (some refused) s = reschedule c r.at_write s
  finished c scan_err r f none s =
      close_row c scan_err r.at_write (record s { published = s.published ++ f ∷ [] })

  unfoldable pub finish : Continuation → Result → Option GoError → Readings → World → World
  unfolding finished finding
  finish c res scan_err r s =
      let f = finding c res scan_err r.at_finding in finished c scan_err r f (sink f s.published) s

  no_collector : Continuation → GoError
  no_collector c =
      failure (str_append "no collector registered for scanner " (texts.quoted c.scanner))

  unfinished : Continuation → GoError
  unfinished c = failure (
      str_append "analysis "
        (str_append c.token (str_append " did not finish within " (texts.printed w.max_age))))

  unfoldable pub polled : Continuation → Readings → PollResult → World → World
  unfolding finish reschedule
  polled c r (poll_failed e) s = reschedule c r.at_write s
  polled c r not_done s = reschedule c r.at_write s
  polled c r (verdict res) s = finish c res none r s

  unfoldable pub collected : Continuation → Readings → Option Collector → World → World
  unfolding unfinished no_collector
  collected c r none s = finish c empty_result (some (no_collector c)) r s
  collected c r (some col) s =
      if is_abandoned w r.at_age c
      then finish c empty_result (some (unfinished c)) r s
      else (if is_early r.at_poll c then s else polled c r (col.poll c.token) s)

  unfoldable pub handle : Continuation → Readings → World → World
  unfolding collected
  handle c r s = collected c r (collector_of c.scanner w.collectors) s

  -- A task that the sweeper claimed.
  unfoldable sweep_task : ScanTask → Readings → World → World
  unfolding handle continuation_of reschedule_continuation
  sweep_task t r s =
      if str_eq t.resume_token ""
      then record s {
        ledger =
            settle
              (reschedule_continuation db t.file_id t.scanner w.poll_interval r.at_write s.ledger)
              s.ledger;
      }
      else elim (get_file_record files t.file_id s.records) [
        | found rec ↦ handle (continuation_of rec t) r s
        | missing ↦ s
        | look_failed e ↦ s
      ]

  unfoldable sweep_tasks : List ScanTask → (ScanTask → Readings) → World → World
  unfolding sweep_task
  sweep_tasks [] r s = s
  sweep_tasks (t ∷ ts) r s = sweep_tasks ts r (sweep_task t (r t) s)

  unfoldable after_claim : Claim db.State → (ScanTask → Readings) → World → World
  unfolding sweep_tasks
  after_claim (claim_failed e) r s = s
  after_claim (claimed ts ledger) r s = sweep_tasks ts r (record s { ledger = ledger })

  -- One tick of the sweeper, with the readings of the clock for each task. `batch` is positive:
  -- NewWorker puts 50 in place of any other number.
  pub sweep_tick : Time → (ScanTask → Readings) → World → World
  unfolding after_claim claim_pending
  sweep_tick now r s =
      after_claim (claim_pending db w.instance_name w.lease_for now (pos_part w.batch) s.ledger) r s
