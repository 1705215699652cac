-- ===== src/Examples/Data.antt =====
-- Concrete tables, a semaphore, scanners, findings and answers for the tests.
use s3nitor.Prelude.{
  ℕ, ◌≡◌, refl, true, false, String, str_eq, eq_iff, eq_refl, Option, none, some, Option-cases, inl,
  inr, List, [], ◌∷◌, arith, if◌then◌else◌,
}
use s3nitor.Prelude.Int.{ℤ, pos, ◌+ℤ◌, ◌-ℤ◌, ◌≤ℤ◌, leb_ℤ}
use s3nitor.Scanner.{
  Scanner, ScanInput, pending, Context, Finding, Time, mode_sync, mode_async, severity_high,
}
use s3nitor.Ledger.{ScanTask, TaskKey, TaskTable, task_key, same_task}
use s3nitor.Ledger.Claims.{same_task_refl}
use s3nitor.Table.{done}
use s3nitor.Records.{upsert_file_record, overwrite, FileRecord, RecordTable, record_key}
use s3nitor.Limiter.Gate.{Semaphore}
use s3nitor.Examples.Rows.{list_table, row_of-key, put, upsert}

pub str_same : (s t : String) → str_eq s t ≡ true → s ≡ t
str_same s t h = (eq_iff s t).0 h

pub task_same : (j k : TaskKey) → same_task j k ≡ true → j ≡ k
task_same (f, s) (g, t) h = ground (arith, eq_iff f g, eq_iff s t)

abbrev pub files : RecordTable
files = list_table String FileRecord record_key str_eq eq_refl str_same

abbrev pub tasks : TaskTable
tasks = list_table TaskKey ScanTask task_key same_task same_task_refl task_same

pub record Weighted : Type 0 where
  pub held : ℤ
  pub size : ℤ

abbrev pub take_weight : ℤ → Weighted → Option Weighted
take_weight n s =
    if leb_ℤ (s.held +ℤ n) s.size then some (record s { held = s.held +ℤ n }) else none

abbrev pub give_weight : ℤ → Weighted → Option Weighted
give_weight n s = if leb_ℤ n s.held then some (record s { held = s.held -ℤ n }) else none

pub take_weight-held : (n : ℤ) (s t : Weighted) → take_weight n s ≡ some t → t.held ≡ s.held +ℤ n
take_weight-held n s t e = ground arith

pub take_weight-size : (n : ℤ) (s t : Weighted) → take_weight n s ≡ some t → t.size ≡ s.size
take_weight-size n s t e = ground arith

pub take_weight_fits : (n : ℤ) (s t : Weighted) → take_weight n s ≡ some t → t.held ≤ℤ t.size
take_weight_fits n s t e = ground arith

pub give_weight_held :
    (n : ℤ) (s : Weighted)
    → n ≤ℤ s.held
    → (t : Weighted) × (give_weight n s ≡ some t) × (t.held ≡ s.held -ℤ n) × (t.size ≡ s.size)
give_weight_held n s h = (record s { held = s.held -ℤ n }, ground arith, refl, refl)

abbrev pub semaphore : Semaphore
semaphore = record {
  State = Weighted;
  new_weighted = λ n. record { held = pos 0; size = n };
  acquire = take_weight;
  release = give_weight;
  size = λ s. s.size;
  held = λ s. s.held;
  new-held = λ n. refl;
  new-size = λ n. refl;
  acquire-held = take_weight-held;
  acquire-size = take_weight-size;
  acquire_fits = take_weight_fits;
  release_held = give_weight_held;
}

-- In place of SHA-256: the text itself.
abbrev pub identity : String → String
identity s = s

abbrev pub yara : Scanner
yara = record {
  name = "yara";
  enabled = true;
  needs_payload = true;
  rules_version = "r1";
  mode = mode_sync;
  timeout = pos 60;
  scan = λ ctx i. (record { is_match = true; severity = severity_high; detail = [] }, none);
}

abbrev pub cape : Scanner
cape = record {
  name = "cape";
  enabled = true;
  needs_payload = true;
  rules_version = "v2";
  mode = mode_async;
  timeout = pos 30;
  scan = λ ctx i. (
    record { is_match = false; severity = ""; detail = [] },
    some (pending (record { token = "42"; retry_after = pos 0 })),
  );
}

abbrev pub ioc : Scanner
ioc = record {
  name = "ioc";
  enabled = true;
  needs_payload = false;
  rules_version = "i1";
  mode = mode_sync;
  timeout = pos 0;
  scan = λ ctx i. (record { is_match = false; severity = ""; detail = [] }, none);
}

abbrev pub input : ScanInput
input = record {
  file_id = "id1";
  bucket = "b";
  key = "k";
  version = "v";
  size = pos 9;
  hashes = ("md5", "m") ∷ [];
  local_path = "/tmp/id1";
}

abbrev pub background : Context
background = record { deadline = none; cancelled = false }

abbrev pub verdict_of : String → String → Finding
verdict_of id name = record {
  file_id = id;
  bucket = "b";
  key = "k";
  version = "v";
  size = pos 9;
  hashes = [];
  scanner = name;
  rules_version = "r1";
  is_match = true;
  severity = severity_high;
  detail = [];
  scanned_at = pos 5;
  error = "";
}

abbrev pub task_of : String → String → String → ScanTask
task_of id name token = record {
  file_id = id;
  scanner = name;
  status = "pending";
  rules_version = "r1";
  attempts = 1;
  next_attempt_at = pos 10;
  last_error = "";
  resume_token = token;
  submitted_at = pos 4;
  leased_by = "";
  lease_expires_at = pos 0;
  started_at = pos 0;
  finished_at = pos 0;
  created_at = pos 4;
  updated_at = pos 4;
}

abbrev pub record_for : String → FileRecord
record_for id = record {
  file_id = id;
  bucket = "b";
  object_key = "k";
  version = "v";
  size = pos 9;
  md5 = "m";
  sha1 = "";
  sha256 = "";
  last_modified = pos 0;
  fetched_at = pos 5;
  created_at = pos 5;
  updated_at = pos 5;
}

-- No statement of UpsertFileRecord fails here.
pub files_write :
    (r : FileRecord) (now : Time) (x : files.State)
    → (y : files.State) × (n : ℕ) × (upsert_file_record files r now x ≡ done y n)
unfolding upsert_file_record overwrite
files_write r now x =
    let new = record r { created_at = now; updated_at = now } in
    let put_row : FileRecord → List FileRecord =
      λ q. put String FileRecord record_key str_eq eq_refl str_same q x in
    elim (Option-cases (files.row_at x r.file_id)) [
      | inl gone ↦ (put_row new, 1, rw (gone, upsert) refl)
      | inr (o, at) ↦
          let same =
            row_of-key String FileRecord record_key str_eq eq_refl str_same x r.file_id o at in
          (put_row (overwrite new o), 1, rw (at, upsert, same) refl)
    ]
