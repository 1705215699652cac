-- ===== src/Ledger/Rows.antt =====
-- internal/db/scan_task.go: the row that each operation names, after it.
use mathlib.Core.Option
use s3nitor.Prelude.{
  ℕ, ◌≡◌, refl, sym, ap, ◌∙◌, ◌⊎◌, String, eq_iff, Bool-cases, true, false, Option, none, some,
  Option-cases, inl, inr, arith, if◌then◌else◌,
}
use s3nitor.Prelude.Int.{◌+ℤ◌}
use s3nitor.Scanner.{Time, Duration, zero_time}
use s3nitor.Table.{done, or_insert}
use s3nitor.Ledger.{
  ScanTask, TaskTable, TaskKey, task_key, same_task, always, status_pending, is_due, mark_done,
  mark_failed, enqueue_pending, enqueue_continuation,
}

-- The attempts already counted for a pair, its token and the time of its submission.
abbrev pub attempts_of : Option ScanTask → ℕ
attempts_of none = 0
attempts_of (some r) = r.attempts

abbrev pub token_of : Option ScanTask → String
token_of none = ""
token_of (some r) = r.resume_token

abbrev pub submitted_of : Option ScanTask → Time
submitted_of none = zero_time
submitted_of (some r) = r.submitted_at

same_task-eq : (j k : TaskKey) → same_task j k ≡ true → j ≡ k
same_task-eq (f, s) (g, t) h = ground (arith, eq_iff f g, eq_iff s t)

module _ (db : TaskTable) where
  -- One row is written, and every other row is left alone.
  pub record Writes (s t : db.State) (k : TaskKey) (row : ScanTask) : Type 0 where
    pub rows_after :
        (j : TaskKey) → db.row_at t j ≡ (if same_task k j then some row else db.row_at s j)

  upsert-Writes :
      (r : ScanTask) (f : ScanTask → ScanTask) (s t : db.State) (n : ℕ)
      → db.upsert r f s ≡ done t n
      → Writes s t (task_key r) (or_insert (Option.map f (db.row_at s (task_key r))) r)
  upsert-Writes r f s t n e = record {
    rows_after = λ j. elim (Bool-cases (same_task (task_key r) j)) [
      | inl same ↦
          let k = same_task-eq (task_key r) j same in
          db.upsert-row_at r f s t n j e
          ∙ rw same (ap (λ i. some (or_insert (Option.map f (db.row_at s i)) r)) (sym k))
      | inr apart ↦ db.upsert-row_at r f s t n j e ∙ rw apart
    ];
  }

  update-Writes :
      (k : TaskKey) (f : ScanTask → ScanTask) (r : ScanTask) (s t : db.State) (n : ℕ)
      → db.update k always f s ≡ done t n
      → db.row_at s k ≡ some r
      → Writes s t k (f r)
  update-Writes k f r s t n e at = record {
    rows_after = λ j. elim (Bool-cases (same_task k j)) [
      | inl same ↦ db.update-row_at k always f s t n j e ∙ rw (same, ← same_task-eq k j same, at)
      | inr apart ↦ db.update-row_at k always f s t n j e ∙ rw apart
    ];
  }

  -- The row of a pair that waits for an attempt or a poll.
  pub record Parked (s t : db.State) (file_id scanner rules token : String) (submitted next : Time)
      (tries : ℕ) : Type 0 where
    pub row : ScanTask
    pub written : Writes s t (file_id, scanner) row
    pub is_pending : row.status ≡ status_pending
    pub ruled : row.rules_version ≡ rules
    pub next_at : row.next_attempt_at ≡ next
    pub tokened : row.resume_token ≡ token
    pub submitted_at : row.submitted_at ≡ submitted
    pub counted : row.attempts ≡ tries

  -- Parking a pair that spilled makes it pending `backoff` from now, keeps the attempts, the token
  -- and the submission time that its row already had (none: 0 attempts and no token), and touches no
  -- other row.
  pub enqueue_pending-Parked :
      (file_id scanner rules : String) (backoff : Duration) (now : Time) (s t : db.State) (n : ℕ)
      → enqueue_pending db file_id scanner rules backoff now s ≡ done t n
      → let old = db.row_at s (file_id, scanner) in
        Parked s t file_id scanner rules
          (token_of old)
          (submitted_of old)
          (now +ℤ backoff)
          (attempts_of old)
  unfolding enqueue_pending
  enqueue_pending-Parked file_id scanner rules backoff now s t n e =
      let w = upsert-Writes _ _ s t n e in
      elim (Option-cases (db.row_at s (file_id, scanner))) [
        | inl new ↦ rw new (record {
          row = _;
          written = rw new at w;
          is_pending = refl;
          ruled = refl;
          next_at = refl;
          tokened = refl;
          submitted_at = refl;
          counted = refl;
        })
        | inr (r, old) ↦ rw old (record {
          row = _;
          written = rw old at w;
          is_pending = refl;
          ruled = refl;
          next_at = refl;
          tokened = refl;
          submitted_at = refl;
          counted = refl;
        })
      ]

  -- Handing a scan off makes its pair pending until the first poll, with the token and the time of
  -- the submission, keeps the attempts that its row already had, and touches no other row.
  pub enqueue_continuation-Parked :
      (file_id scanner rules token : String) (poll_in : Duration) (now : Time) (s t : db.State)
      (n : ℕ)
      → enqueue_continuation db file_id scanner rules token poll_in now s ≡ done t n
      → Parked s t file_id scanner rules token now
          (now +ℤ poll_in)
          (attempts_of (db.row_at s (file_id, scanner)))
  unfolding enqueue_continuation
  enqueue_continuation-Parked file_id scanner rules token poll_in now s t n e =
      let w = upsert-Writes _ _ s t n e in
      elim (Option-cases (db.row_at s (file_id, scanner))) [
        | inl new ↦ rw new (record {
          row = _;
          written = rw new at w;
          is_pending = refl;
          ruled = refl;
          next_at = refl;
          tokened = refl;
          submitted_at = refl;
          counted = refl;
        })
        | inr (r, old) ↦ rw old (record {
          row = _;
          written = rw old at w;
          is_pending = refl;
          ruled = refl;
          next_at = refl;
          tokened = refl;
          submitted_at = refl;
          counted = refl;
        })
      ]

  -- A pair whose task is closed, as done or as failed, is due at no time, so no worker claims it,
  -- until it is parked anew; no other row is touched.
  closed_never_due :
      (file_id scanner reason : String) (now later : Time) (s t : db.State) (n : ℕ) (old : ScanTask)
      → db.row_at s (file_id, scanner) ≡ some old
      → (mark_done db file_id scanner now s ≡ done t n)
        ⊎ (mark_failed db file_id scanner reason now s ≡ done t n)
      → (row : ScanTask) × Writes s t (file_id, scanner) row
        × (is_due later row ≡ false)
        × (row.resume_token ≡ old.resume_token)
        × (row.attempts ≡ old.attempts)
  unfolding mark_done mark_failed is_due
  closed_never_due file_id scanner reason now later s t n old at (inl e) =
      (_, update-Writes _ _ old s t n e at, ground arith, refl, refl)
  closed_never_due file_id scanner reason now later s t n old at (inr e) =
      (_, update-Writes _ _ old s t n e at, ground arith, refl, refl)
