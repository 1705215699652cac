-- ===== src/Pipeline/Flush/Accepted.antt =====
-- flush: what is recorded of the objects of a batch, against the documents that the sink took.
use mathlib.Core.Bool.{false≢true}
use s3nitor.Prelude.{
  ℕ, suc, ◌≡◌, refl, ◌∙◌, ◌⊎◌, inl, inr, String, str_eq, Bool, true, not, ◌&&◌, ◌||◌, Bool-cases,
  none, Option-cases, List, [], ◌∷◌, any, arith,
}
use s3nitor.Scanner.{Finding, Time}
use s3nitor.Table.{done, Write-cases}
use s3nitor.Ledger.{TaskTable, TaskKey, same_task, mark_done}
use s3nitor.Records.{FileRecord, RecordTable, upsert_file_record}
use s3nitor.Records.Dedup.{is_recorded}
use s3nitor.Pipeline.Flush.{
  Reporter, send, record_of, is_left_out, Store, record_one, record_all, flush,
}
use s3nitor.Pipeline.Flush.Verdicts.{
  is_verdict_on, is_verdict_of, Kept, Kept-trans, Kept-weaken, Kept-verdict, not_gate, and_taken,
  left_out_met, met_or_now, now_or_later,
}

module _ (files : RecordTable) (tasks : TaskTable) where
  record_one-records :
      (f : Finding) (t u : Time) (s : Store files tasks) (id : String)
      → Kept
          (files.row_at (record_one files tasks f t u s).records id)
          (files.row_at s.records id)
          (str_eq f.file_id id)
  unfolding record_one upsert_file_record record_of
  record_one-records f t u s id =
      elim (Write-cases (upsert_file_record files (record_of f) t s.records)) [
        | inl (x, e) ↦ rw (e, record_one) (inl refl)
        | inr (r, n, e) ↦
            rw (e, record_one)
              (elim (Bool-cases (str_eq f.file_id id)) [
                | inl same ↦ inr same
                | inr apart ↦ inl (files.upsert-row_at _ _ s.records r n id e ∙ rw apart refl)
              ])
      ]

  record_one-ledger :
      (f : Finding) (t u : Time) (s : Store files tasks) (k : TaskKey)
      → Kept
          (tasks.row_at (record_one files tasks f t u s).ledger k)
          (tasks.row_at s.ledger k)
          (same_task (f.file_id, f.scanner) k)
  unfolding record_one mark_done
  record_one-ledger f t u s k =
      elim (Write-cases (upsert_file_record files (record_of f) t s.records)) [
        | inl (x, e) ↦ rw (e, record_one) (inl refl)
        | inr (r, n, e) ↦
            rw (e, record_one)
              (elim (Write-cases (mark_done tasks f.file_id f.scanner u s.ledger)) [
                | inl (y, g) ↦ rw g (inl refl)
                | inr (l, m, g) ↦ rw g (elim (Bool-cases (same_task (f.file_id, f.scanner) k)) [
                  | inl same ↦ inr same
                  | inr apart ↦ inl (tasks.update-row_at _ _ _ s.ledger l m k g ∙ rw apart refl)
                ])
              ])
      ]

  -- What one turn of the loop keeps, but for some documents, the loop keeps but for those verdicts.
  record_all-Kept {ℓ} :
      {A : Type ℓ} (view : Store files tasks → A) (p : Finding → Bool)
      → ((f : Finding) (t u : Time) (s : Store files tasks)
          → Kept (view (record_one files tasks f t u s)) (view s) (p f))
      → (clock : ℕ → Time) (n : ℕ) (recorded : List String) (fs : List Finding)
        (s : Store files tasks)
      → Kept
          (view (record_all files tasks clock n recorded fs s))
          (view s)
          (any (λ f. p f && not (str_eq f.scanner "size_gate")) fs)
  unfolding record_all
  record_all-Kept view p one clock n recorded [] s = inl refl
  record_all-Kept view p one clock n recorded (f ∷ fs) s =
      elim (Bool-cases (is_left_out recorded f)) [
        | inl out ↦
            rw (out, record_all)
              (Kept-weaken _ _ _ _ (record_all-Kept view p one clock n recorded fs s))
        | inr kept ↦
            rw (kept, record_all)
              (Kept-trans _ _ _ _ _
                (record_all-Kept view p one clock (suc (suc n)) (f.file_id ∷ recorded) fs
                  (record_one files tasks f (clock n) (clock (suc n)) s))
                (Kept-verdict _ _ _ _ (not_gate recorded f kept)
                  (one f (clock n) (clock (suc n)) s)))
      ]

  -- After a flush, a row of the file records or of the ledger has changed only if the sink took the
  -- batch, and the batch holds a verdict on that object, or of that task: no batch that the sink
  -- refused and no notice of an object that was too large marks anything as handled.
  pub flush_records_only_accepted :
      {S : Type 0} (rep : Reporter S) (clock : ℕ → Time) (batch : List Finding)
      (s : Store files tasks) (sink : S) (id : String) (k : TaskKey)
      → let s' = (flush files tasks rep clock batch s sink).0 in
        ((files.row_at s'.records id ≡ files.row_at s.records id)
          ⊎ (((send rep batch sink).0 ≡ none) × (any (is_verdict_on id) batch ≡ true)))
        × ((tasks.row_at s'.ledger k ≡ tasks.row_at s.ledger k)
            ⊎ (((send rep batch sink).0 ≡ none) × (any (is_verdict_of k) batch ≡ true)))
  unfolding flush
  flush_records_only_accepted rep clock batch s sink id k =
      elim (Option-cases (send rep batch sink).0) [
        | inr (e, refused) ↦ rw (refused, flush) (inl refl, inl refl)
        | inl taken ↦
            rw (taken, flush)
              (
                and_taken none refl (
                    record_all-Kept (λ t. files.row_at t.records id) (λ f. str_eq f.file_id id)
                      (λ f t u r. record_one-records f t u r id) clock 0 [] batch s),
                and_taken none refl (
                    record_all-Kept (λ t. tasks.row_at t.ledger k)
                      (λ f. same_task (f.file_id, f.scanner) k)
                      (λ f t u r. record_one-ledger f t u r k) clock 0 [] batch s),
              )
      ]

  after_upsert :
      (f : Finding) (t u : Time) (s : Store files tasks) (r : files.State) (n : ℕ)
      → upsert_file_record files (record_of f) t s.records ≡ done r n
      → (record_one files tasks f t u s).records ≡ r
  unfolding record_one
  after_upsert f t u s r n e = rw (e, record_one) refl

  -- A row that is there stays, and the object of the document gets one.
  record_one-is_recorded :
      (f : Finding) (t u : Time) (s : Store files tasks) (id : String)
      → ((r : FileRecord) (now : Time) (x : files.State)
          → (y : files.State) × (n : ℕ) × (upsert_file_record files r now x ≡ done y n))
      → (is_recorded (files.row_at s.records id) || str_eq f.file_id id) ≡ true
      → is_recorded (files.row_at (record_one files tasks f t u s).records id) ≡ true
  unfolding upsert_file_record record_of
  record_one-is_recorded f t u s id writes h =
      let (r, n, e) = writes (record_of f) t s.records in
      rw (after_upsert f t u s r n e, files.upsert-row_at _ _ s.records r n id e)
        (elim (Bool-cases (str_eq f.file_id id)) [
          | inl same ↦ rw same refl
          | inr apart ↦ rw apart (ground arith)
        ])

  record_all-is_recorded :
      (clock : ℕ → Time) (n : ℕ) (recorded : List String) (fs : List Finding)
      (s : Store files tasks) (id : String)
      → ((r : FileRecord) (now : Time) (x : files.State)
          → (y : files.State) × (n : ℕ) × (upsert_file_record files r now x ≡ done y n))
      → (any (str_eq id) recorded ≡ true → is_recorded (files.row_at s.records id) ≡ true)
      → (is_recorded (files.row_at s.records id) || any (is_verdict_on id) fs) ≡ true
      → is_recorded (files.row_at (record_all files tasks clock n recorded fs s).records id) ≡ true
  unfolding record_all
  record_all-is_recorded clock n recorded [] s id writes met h = ground arith
  record_all-is_recorded clock n recorded (f ∷ fs) s id writes met h =
      elim (Bool-cases (is_left_out recorded f)) [
        | inl out ↦
            rw (out, record_all)
              (record_all-is_recorded clock n recorded fs s id writes met
                (left_out_met recorded f fs id _ out met h))
        | inr kept ↦
            let one = record_one-is_recorded f (clock n) (clock (suc n)) s id writes in
            rw (kept, record_all)
              (record_all-is_recorded clock (suc (suc n)) (f.file_id ∷ recorded) fs
                (record_one files tasks f (clock n) (clock (suc n)) s) id writes
                (λ m. one (met_or_now recorded f id _ met m)) (now_or_later f fs id _ _ one h))
      ]

  pub flush_keeps_and_records :
      {S : Type 0} (rep : Reporter S) (clock : ℕ → Time) (batch : List Finding)
      (s : Store files tasks) (sink : S) (id : String)
      → ((r : FileRecord) (now : Time) (x : files.State)
          → (y : files.State) × (n : ℕ) × (upsert_file_record files r now x ≡ done y n))
      → (send rep batch sink).0 ≡ none
      → (is_recorded (files.row_at s.records id) || any (is_verdict_on id) batch) ≡ true
      → is_recorded (files.row_at (flush files tasks rep clock batch s sink).0.records id) ≡ true
  unfolding flush
  flush_keeps_and_records rep clock batch s sink id writes taken h =
      rw (taken, flush)
        (record_all-is_recorded clock 0 [] batch s id writes (λ m. absurd (false≢true m)) h)

  -- Where the sink takes a batch and the database takes the rows, every object that the batch has a
  -- verdict on has a file record afterwards, however its documents stand in the batch.
  flush_records_every_object :
      {S : Type 0} (rep : Reporter S) (clock : ℕ → Time) (batch : List Finding)
      (s : Store files tasks) (sink : S) (id : String)
      → ((r : FileRecord) (now : Time) (x : files.State)
          → (y : files.State) × (n : ℕ) × (upsert_file_record files r now x ≡ done y n))
      → (send rep batch sink).0 ≡ none
      → any (is_verdict_on id) batch ≡ true
      → is_recorded (files.row_at (flush files tasks rep clock batch s sink).0.records id) ≡ true
  flush_records_every_object rep clock batch s sink id writes taken h =
      flush_keeps_and_records rep clock batch s sink id writes taken (ground arith)
