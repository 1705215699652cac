-- ===== src/Ledger.antt =====
-- internal/db/scan_task.go: the ledger, one row for each pair of an object version and a scanner.
-- Where the code does not set `updated_at` itself, gorm sets it to the clock's reading.
pub mod Claims
pub mod Rows
use s3nitor.Prelude.{
  ℕ, String, str_eq, Bool, true, ◌&&◌, ◌||◌, Option, none, some, List, [], ◌∷◌, ◌++◌, ◌+◌, ◌==◌,
  if◌then◌else◌,
}
use s3nitor.Prelude.Int.{ℤ, ◌+ℤ◌, leb_ℤ, eqb_ℤ}
use s3nitor.Scanner.{Time, Duration, GoError, zero_time}
use s3nitor.Table.{Table, Write, failed, done, rows, unread}

abbrev pub status_pending : String
status_pending = "pending"

abbrev pub status_running : String
status_running = "running"

abbrev pub status_done : String
status_done = "done"

abbrev pub status_failed : String
status_failed = "failed"

pub record ScanTask : Type 0 where
  pub file_id : String
  pub scanner : String
  pub status : String
  pub rules_version : String
  pub attempts : ℕ
  pub next_attempt_at : Time
  pub last_error : String
  pub resume_token : String
  pub submitted_at : Time
  pub leased_by : String
  pub lease_expires_at : Time
  pub started_at : Time
  pub finished_at : Time
  pub created_at : Time
  pub updated_at : Time

abbrev pub TaskKey : Type 0
TaskKey = String × String

abbrev pub task_key : ScanTask → TaskKey
task_key t = (t.file_id, t.scanner)

abbrev pub same_task : TaskKey → TaskKey → Bool
same_task (f, s) (g, t) = str_eq f g && str_eq s t

abbrev pub TaskTable : Type 1
TaskTable = Table TaskKey ScanTask task_key same_task

-- `ScanTask{…}` with every field that is not named at its zero value.
new_task : String → String → Time → ScanTask
new_task file_id scanner now = record {
  file_id = file_id;
  scanner = scanner;
  status = status_pending;
  rules_version = "";
  attempts = 0;
  next_attempt_at = zero_time;
  last_error = "";
  resume_token = "";
  submitted_at = zero_time;
  leased_by = "";
  lease_expires_at = zero_time;
  started_at = zero_time;
  finished_at = zero_time;
  created_at = now;
  updated_at = now;
}

abbrev pub always : ScanTask → Bool
always t = true

module _ (db : TaskTable) where
  unfoldable pub mark_done : String → String → Time → db.State → Write db.State
  mark_done file_id scanner now =
      db.update (file_id, scanner) always
        (λ t. record t {
          status = status_done;
          finished_at = now;
          leased_by = "";
          lease_expires_at = zero_time;
          updated_at = now;
        })

  unfoldable pub enqueue_continuation :
      String → String → String → String → Duration → Time → db.State → Write db.State
  unfolding new_task
  enqueue_continuation file_id scanner rules_version token poll_in now =
      db.upsert
        (record (new_task file_id scanner now) {
          rules_version = rules_version;
          resume_token = token;
          submitted_at = now;
          next_attempt_at = now +ℤ poll_in;
        })
        (λ t. record t {
          status = status_pending;
          rules_version = rules_version;
          resume_token = token;
          submitted_at = now;
          next_attempt_at = now +ℤ poll_in;
          updated_at = now;
        })

  unfoldable pub reschedule_continuation :
      String → String → Duration → Time → db.State → Write db.State
  reschedule_continuation file_id scanner poll_in now =
      db.update (file_id, scanner) always
        (λ t. record t {
          status = status_pending;
          leased_by = "";
          next_attempt_at = now +ℤ poll_in;
          updated_at = now;
        })

  unfoldable pub enqueue_pending :
      String → String → String → Duration → Time → db.State → Write db.State
  unfolding new_task
  enqueue_pending file_id scanner rules_version backoff now =
      db.upsert
        (record (new_task file_id scanner now) {
          rules_version = rules_version;
          next_attempt_at = now +ℤ backoff;
        })
        (λ t. record t {
          status = status_pending;
          rules_version = rules_version;
          next_attempt_at = now +ℤ backoff;
          updated_at = now;
        })

  unfoldable pub mark_failed : String → String → String → Time → db.State → Write db.State
  mark_failed file_id scanner reason now =
      db.update (file_id, scanner) always
        (λ t. record t {
          status = status_failed;
          last_error = reason;
          finished_at = now;
          leased_by = "";
          lease_expires_at = zero_time;
          updated_at = now;
        })

-- The WHERE clause of ClaimPending.
unfoldable pub is_due : Time → ScanTask → Bool
is_due now t =
    (str_eq t.status status_pending && leb_ℤ t.next_attempt_at now)
    || (str_eq t.status status_running && leb_ℤ t.lease_expires_at now)

-- What a claim writes into the row that was read as `t`.
unfoldable pub under_lease : String → Duration → Time → ScanTask → ScanTask → ScanTask
under_lease instance' lease_for now t row = record row {
  status = status_running;
  leased_by = instance';
  lease_expires_at = now +ℤ lease_for;
  attempts = t.attempts + 1;
  started_at = now;
  updated_at = now;
}

abbrev pub is_unchanged : ScanTask → ScanTask → Bool
is_unchanged t row = eqb_ℤ row.updated_at t.updated_at

-- What ClaimPending returns beside the new state: the tasks claimed, or an error.
pub data Claim (S : Type 0) : Type 0 where
  claimed : List ScanTask → S → Claim S
  claim_failed : GoError → Claim S

module _ (db : TaskTable) (instance' : String) (lease_for : Duration) (now : Time) where
  -- The guarded UPDATE for one candidate.
  unfoldable pub claim_update : ScanTask → db.State → Write db.State
  unfolding under_lease
  claim_update t = db.update (task_key t) (is_unchanged t) (under_lease instance' lease_for now t)

  -- The copy of the task that is handed out: only its attempt count is new.
  unfoldable pub handed_out : ScanTask → ScanTask
  handed_out t = record t { attempts = t.attempts + 1 }

  unfoldable pub claim_loop : List ScanTask → List ScanTask → db.State → Claim db.State
  unfolding handed_out
  claim_loop taken [] s = claimed taken s
  claim_loop taken (t ∷ ts) s = elim (claim_update t s) [
    | failed e ↦ claim_failed e
    | done s' n ↦ claim_loop (if n == 1 then taken ++ handed_out t ∷ [] else taken) ts s'
  ]

  -- One transaction: after an error the caller's state is the one that it had.
  unfoldable pub claim_pending : ℕ → db.State → Claim db.State
  unfolding is_due claim_loop
  claim_pending limit s = elim (db.select (is_due now) limit s) [
    | unread e ↦ claim_failed e
    | rows candidates ↦ claim_loop [] candidates s
  ]
