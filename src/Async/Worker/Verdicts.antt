-- ===== src/Async/Worker/Verdicts.antt =====
-- internal/async/worker.go: how handle leaves a task, and what it has published.
use s3nitor.Prelude.{
  ◌≡◌, refl, ◌⊎◌, inl, inr, String, str_eq, Bool, true, false, not, ◌&&◌, ◌||◌, Bool-cases, Option,
  none, some, Option-cases, [], ◌∷◌, ◌++◌,
}
use s3nitor.Prelude.Text.{append_nonempty}
use s3nitor.Scanner.{severity_info, empty_result, failure, message, Time, Result, GoError, Finding}
use s3nitor.Scanner.Verdict.{new_finding_for-Reports}
use s3nitor.Table.{Write-cases}
use s3nitor.Ledger.{
  ScanTask, TaskTable, TaskKey, same_task, status_pending, status_done, status_failed, always,
  mark_done, mark_failed, reschedule_continuation,
}
use s3nitor.Records.{RecordTable}
use s3nitor.Async.Continuation.{Continuation, finding, input_of}
use s3nitor.Async.Worker.{
  Worker, World, Readings, Texts, Sink, Collector, PollResult, poll_failed, not_done, verdict,
  settle, reschedule, finish, polled, handle, collector_of, is_abandoned, is_early,
}

and_not : (b : Bool) → (b && not b) ≡ false
and_not true = refl
and_not false = refl

and_not_and : (b c : Bool) → (b && not b && c) ≡ false
and_not_and true c = refl
and_not_and false c = refl

and_false : (b : Bool) → (b && false) ≡ false
and_false true = refl
and_false false = refl

-- The document of a continuation names its object and its scanner.
finding_names :
    (c : Continuation) (res : Result) (e : Option GoError) (now : Time)
    → ((finding c res e now).file_id ≡ c.file_id) × ((finding c res e now).scanner ≡ c.scanner)
unfolding finding input_of
finding_names c res e now =
    let v = new_finding_for-Reports (input_of c) c.scanner c.rules_version res e now in
    (v.same_object.0, v.same_scanner.0)

-- The task is recorded as done or as failed.
abbrev is_closed : Option ScanTask → Bool
is_closed none = false
is_closed (some t) = str_eq t.status status_done || str_eq t.status status_failed

pending_is_open : (str_eq status_pending status_done || str_eq status_pending status_failed) ≡ false
pending_is_open = refl

module _ (db : TaskTable) (files : RecordTable) (sink : Sink) (texts : Texts) (w : Worker) where
  -- A row that one step closes.
  abbrev newly_closed : db.State → db.State → TaskKey → Bool
  newly_closed s t k = is_closed (db.row_at t k) && not (is_closed (db.row_at s k))

  -- A write that closes nothing itself.
  update_opens :
      (k : TaskKey) (f : ScanTask → ScanTask) (s : db.State) (j : TaskKey)
      → ((t : ScanTask) → is_closed (some (f t)) ≡ false)
      → newly_closed s (settle (db.update k always f s) s) j ≡ false
  update_opens k f s j opens = elim (Write-cases (db.update k always f s)) [
    | inl (x, e) ↦ rw e (and_not (is_closed (db.row_at s j)))
    | inr (t, n, e) ↦
        rw (e, db.update-row_at k always f s t n j e)
          (elim (Bool-cases (same_task k j)) [
            | inr apart ↦ rw apart (and_not (is_closed (db.row_at s j)))
            | inl same ↦ elim (Option-cases (db.row_at s j)) [
              | inl gone ↦ rw (same, gone)
              | inr (r, at) ↦ rw (same, at, opens r)
            ]
          ])
  ]

  -- A write touches one row only.
  update_elsewhere :
      (k : TaskKey) (f : ScanTask → ScanTask) (s : db.State) (j : TaskKey)
      → (newly_closed s (settle (db.update k always f s) s) j && not (same_task k j)) ≡ false
  update_elsewhere k f s j = elim (Write-cases (db.update k always f s)) [
    | inl (x, e) ↦ rw e (and_not_and (is_closed (db.row_at s j)) (not (same_task k j)))
    | inr (t, n, e) ↦
        rw (e, db.update-row_at k always f s t n j e)
          (elim (Bool-cases (same_task k j)) [
            | inr apart ↦ rw apart (and_not_and (is_closed (db.row_at s j)) true)
            | inl same ↦ rw same (and_false _)
          ])
  ]

  -- A step that published nothing and closed no task, or that published the verdict on `c`, which
  -- the sink took, and closed no other task.
  abbrev pub Outcome :
      Continuation → World db files sink texts w → World db files sink texts w → Type 0
  Outcome c s s' =
      ((s'.published ≡ s.published) × ((k : TaskKey) → newly_closed s.ledger s'.ledger k ≡ false))
      ⊎ ((f : Finding) × (s'.published ≡ s.published ++ f ∷ [])
          × (sink f s.published ≡ none)
          × (f.file_id ≡ c.file_id)
          × (f.scanner ≡ c.scanner)
          × ((k : TaskKey)
              → (newly_closed s.ledger s'.ledger k && not (same_task (c.file_id, c.scanner) k))
                ≡ false))

  reschedule-Outcome :
      (c : Continuation) (now : Time) (s : World db files sink texts w)
      → Outcome c s (reschedule db files sink texts w c now s)
  unfolding reschedule reschedule_continuation
  reschedule-Outcome c now s = inl (refl, λ k. update_opens _ _ s.ledger k (λ t. pending_is_open))

  taken-Outcome :
      (c : Continuation) (res : Result) (e : Option GoError) (r : Readings)
      (s : World db files sink texts w)
      → sink (finding c res e r.at_finding) s.published ≡ none
      → Outcome c s (finish db files sink texts w c res e r s)
  unfolding finish mark_done mark_failed
  taken-Outcome c res none r s taken =
      let (file, name) = finding_names c res none r.at_finding in
      rw (taken, finish)
        (inr (
          finding c res none r.at_finding,
          refl,
          taken,
          file,
          name,
          λ k. update_elsewhere _ _ s.ledger k,
        ))
  taken-Outcome c res (some e) r s taken =
      let (file, name) = finding_names c res (some e) r.at_finding in
      rw (taken, finish)
        (inr (
          finding c res (some e) r.at_finding,
          refl,
          taken,
          file,
          name,
          λ k. update_elsewhere _ _ s.ledger k,
        ))

  finish-Outcome :
      (c : Continuation) (res : Result) (e : Option GoError) (r : Readings)
      (s : World db files sink texts w)
      → Outcome c s (finish db files sink texts w c res e r s)
  unfolding finish
  finish-Outcome c res e r s =
      elim (Option-cases (sink (finding c res e r.at_finding) s.published)) [
        | inr (x, refused) ↦ rw (refused, finish) (reschedule-Outcome c r.at_write s)
        | inl taken ↦ taken-Outcome c res e r s taken
      ]

  unchanged-Outcome : (c : Continuation) (s : World db files sink texts w) → Outcome c s s
  unchanged-Outcome c s = inl (refl, λ k. and_not (is_closed (db.row_at s.ledger k)))

  polled-Outcome :
      (c : Continuation) (r : Readings) (p : PollResult) (s : World db files sink texts w)
      → Outcome c s (polled db files sink texts w c r p s)
  unfolding polled
  polled-Outcome c r (poll_failed e) s = reschedule-Outcome c r.at_write s
  polled-Outcome c r not_done s = reschedule-Outcome c r.at_write s
  polled-Outcome c r (verdict res) s = finish-Outcome c res none r s

  -- One step of a continuation publishes nothing and closes no task, or publishes one document, of
  -- the continuation's object and scanner, which the sink took, and closes no task but its own. So a
  -- task that is recorded as done or failed has its document in the sink.
  pub handle-Outcome :
      (c : Continuation) (r : Readings) (s : World db files sink texts w)
      → Outcome c s (handle db files sink texts w c r s)
  unfolding handle
  handle-Outcome c r s = elim (Option-cases (collector_of c.scanner w.collectors)) [
    | inl e ↦ rw (e, handle) (finish-Outcome c _ _ r s)
    | inr (col, e) ↦
        rw (e, handle)
          (elim (Bool-cases (is_abandoned w r.at_age c)) [
            | inl old ↦ rw old (finish-Outcome c _ _ r s)
            | inr young ↦ rw young (elim (Bool-cases (is_early r.at_poll c)) [
              | inl early ↦ rw early (unchanged-Outcome c s)
              | inr due ↦ rw due (polled-Outcome c r (col.poll c.token) s)
            ])
          ])
  ]

  error-published :
      (c : Continuation) (text : String) (r : Readings) (s : World db files sink texts w)
      → str_eq text "" ≡ false
      → sink (finding c empty_result (some (failure text)) r.at_finding) s.published ≡ none
      → (f : Finding) × ((finish db files sink texts w c empty_result
            (some (failure text))
            r
            s).published
          ≡ s.published ++ f ∷ [])
        × (f.file_id ≡ c.file_id)
        × (f.scanner ≡ c.scanner)
        × (f.severity ≡ severity_info)
        × (str_eq f.error "" ≡ false)
  unfolding finish finding message
  error-published c text r s text_there taken =
      let e = some (failure text) in
      let v =
        new_finding_for-Reports (input_of c) c.scanner c.rules_version empty_result e
          r.at_finding in
      let (file, name) = finding_names c empty_result e r.at_finding in
      rw (taken, finish)
        (
          finding c empty_result e r.at_finding,
          refl,
          file,
          name,
          v.graded,
          rw v.same_error text_there,
        )

  -- A continuation that no collector can read, or that is older than the limit, is not dropped in
  -- silence: unless the sink refuses it, one document of its object and scanner is published, which
  -- carries an error and is graded `info`.
  pub abandoned_is_published :
      (c : Continuation) (r : Readings) (s : World db files sink texts w)
      → (collector_of c.scanner w.collectors ≡ none)
        ⊎ ((col : Collector) × (collector_of c.scanner w.collectors ≡ some col)
            × (is_abandoned w r.at_age c ≡ true))
      → ((f : Finding) → sink f s.published ≡ none)
      → (f : Finding) × ((handle db files sink texts w c r s).published ≡ s.published ++ f ∷ [])
        × (f.file_id ≡ c.file_id)
        × (f.scanner ≡ c.scanner)
        × (f.severity ≡ severity_info)
        × (str_eq f.error "" ≡ false)
  unfolding handle
  abandoned_is_published c r s (inl e) open_sink =
      rw (e, handle) (error-published c _ r s (append_nonempty _ _ refl) (open_sink _))
  abandoned_is_published c r s (inr (col, e, old)) open_sink =
      rw (e, handle) (rw old (error-published c _ r s (append_nonempty _ _ refl) (open_sink _)))
