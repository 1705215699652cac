-- ===== src/Async/Worker/Sweeps.antt =====
-- internal/async/worker.go: what one tick of the sweeper publishes.
use s3nitor.Prelude.{◌≡◌, ◌⊎◌, str_eq, true, false, some, List, [], ◌∷◌, ◌++◌}
use s3nitor.Scanner.{Time, Finding}
use s3nitor.Ledger.{ScanTask, TaskTable, is_due}
use s3nitor.Records.{RecordTable}
use s3nitor.Async.Worker.{Worker, World, Texts, Sink}

-- A finding on the object of a task that waits for a verdict, by its scanner.
abbrev pub Answers : ScanTask → Finding → Type 0
Answers t f = (f.file_id ≡ t.file_id) × (f.scanner ≡ t.scanner) × (str_eq t.resume_token "" ≡ false)

-- Findings that answer some of the tasks, each task at most once and in their order.
abbrev AnswersSome : List ScanTask → List Finding → Type 0
AnswersSome ts [] = Unit
AnswersSome [] (f ∷ fs) = ⊥
AnswersSome (t ∷ ts) (f ∷ fs) = (Answers t f × AnswersSome ts fs) ⊎ AnswersSome ts (f ∷ fs)

module _ (db : TaskTable) (files : RecordTable) (sink : Sink) (texts : Texts) (w : Worker) where
  -- What a step adds to the findings that were published.
  abbrev Adds : List ScanTask → World db files sink texts w → World db files sink texts w → Type 0
  Adds ts s s' = (fs : List Finding) × (s'.published ≡ s.published ++ fs) × AnswersSome ts fs

  -- A finding on a row that was due when the tick began, and that has a token.
  abbrev pub IsDueFor : db.State → Time → Finding → Type 0
  IsDueFor ledger now f =
      (t : ScanTask) × (db.row_at ledger (f.file_id, f.scanner) ≡ some t)
      × (is_due now t ≡ true)
      × (str_eq t.resume_token "" ≡ false)
