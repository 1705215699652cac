-- ===== src/Pipeline/Lane/Tasks.antt =====
-- runLane and handoff: how a task of a lane ends.
use s3nitor.Prelude.{
  suc, ◌≡◌, refl, false, Option, none, some, [], ◌∷◌, ◌++◌, ℕ, ◌⊎◌, inl, inr, if◌then◌else◌,
}
use s3nitor.Prelude.Int.{ℤ, ◌+ℤ◌, ◌-ℤ◌, int_laws}
use s3nitor.Scanner.{
  ScanInput, Context, PendingError, GoError, Result, Finding, as_pending, new_finding, run_scan,
}
use s3nitor.Scanner.Verdict.{Reports, new_finding_for-Reports}
use s3nitor.Config.{Config}
use s3nitor.Table.{done}
use s3nitor.Ledger.{TaskTable, enqueue_continuation, enqueue_pending}
use s3nitor.Ledger.Rows.{
  Parked, attempts_of, token_of, submitted_of, enqueue_continuation-Parked, enqueue_pending-Parked,
}
use s3nitor.Async.Continuation.{Continuation, from_input, poll_wait}
use s3nitor.Pipeline.Payload.{policy_spill, is_spill}
use s3nitor.Pipeline.Lane.{
  Lane, Turn, Floor, handoff, park, scanned_task, pending_of, conclude, work,
}

-- The time between the submission and the first poll is what the ledger is told to wait.
wait_eq : (now wait : ℤ) → now +ℤ wait -ℤ now ≡ wait
wait_eq now wait = omega int_laws

is_final :
    (err : Option GoError)
    → (err ≡ none) ⊎ ((e : GoError) × (err ≡ some e) × (as_pending e ≡ none))
    → pending_of err ≡ none
unfolding pending_of
is_final err (inl clean) = rw clean refl
is_final err (inr (e, broken, final)) = rw broken final

module _ (db : TaskTable) (A : Type 0) (publish : Continuation → A → Option GoError × A)
    (cfg : Config) where
  -- A scan that answers with a pending error, however wrapped, publishes nothing and counts as no
  -- scan: the ledger, unless its write fails, has the pair pending with the token until the poll that
  -- the error asked for, whatever the broker answers, and the broker is given a continuation.
  pub pending_is_Parked :
      (l : Lane) (ctx : Context) (turn : Turn) (i : ScanInput) (w : Floor db A publish cfg)
      (e : GoError) (pe : PendingError) (t : db.State) (n : ℕ)
      → turn.is_cancelled ≡ false
      → turn.refusal ≡ none
      → (run_scan turn.scan_start ctx l.scanner i).1 ≡ some e
      → as_pending e ≡ some pe
      → enqueue_continuation db i.file_id l.scanner.name l.scanner.rules_version pe.token
          (poll_wait pe.retry_after cfg.async_poll_interval)
          turn.at_write
          w.ledger
        ≡ done t n
      → let w' = work db A publish cfg l ctx turn i w in
        (w'.findings ≡ w.findings)
        × (w'.scanned ≡ w.scanned)
        × (w'.spilled ≡ suc w.spilled)
        × Parked db w.ledger w'.ledger i.file_id l.scanner.name l.scanner.rules_version pe.token
            turn.at_write
            (turn.at_write +ℤ poll_wait pe.retry_after cfg.async_poll_interval)
            (attempts_of (db.row_at w.ledger (i.file_id, l.scanner.name)))
        × (w'.broker
            ≡ (publish
                (from_input i l.scanner pe cfg.async_poll_interval turn.scan_end)
                w.broker).1)
  unfolding work scanned_task handoff from_input
  pending_is_Parked l ctx turn i w e pe t n live free err pending written =
      rw (live, work, free, err, pending_of, pending, scanned_task, wait_eq, written)
        (
          refl,
          refl,
          refl,
          enqueue_continuation-Parked db i.file_id l.scanner.name l.scanner.rules_version pe.token _
              turn.at_write w.ledger t n written,
          refl,
        )

  concluded :
      (l : Lane) (turn : Turn) (i : ScanInput) (w : Floor db A publish cfg) (res : Result)
      (err : Option GoError)
      → (err ≡ none) ⊎ ((e : GoError) × (err ≡ some e) × (as_pending e ≡ none))
      → scanned_task db A publish cfg l i turn res err w
        ≡ conclude db A publish cfg l i turn res err w
  unfolding scanned_task
  concluded l turn i w res err final = rw (is_final err final, scanned_task) refl

  reached :
      (l : Lane) (ctx : Context) (turn : Turn) (i : ScanInput) (w : Floor db A publish cfg)
      (res : Result) (err : Option GoError)
      → turn.is_cancelled ≡ false
      → turn.refusal ≡ none
      → run_scan turn.scan_start ctx l.scanner i ≡ (res, err)
      → work db A publish cfg l ctx turn i w ≡ scanned_task db A publish cfg l i turn res err w
  unfolding work
  reached l ctx turn i w res err live free ran = rw (live, work, free, ran) refl

  -- A scan that ends, with a verdict or with an error that is not pending, is published as exactly one
  -- document, unless the context ends first. The document reports the object, the scanner, and what
  -- the scan returned; the ledger and the broker are not touched.
  pub finished_is_published :
      (l : Lane) (ctx : Context) (turn : Turn) (i : ScanInput) (w : Floor db A publish cfg)
      (res : Result) (err : Option GoError)
      → turn.is_cancelled ≡ false
      → turn.refusal ≡ none
      → run_scan turn.scan_start ctx l.scanner i ≡ (res, err)
      → (err ≡ none) ⊎ ((e : GoError) × (err ≡ some e) × (as_pending e ≡ none))
      → let w' = work db A publish cfg l ctx turn i w in
        (f : Finding) × (w'.findings ≡ (if turn.is_sent then w.findings ++ f ∷ [] else w.findings))
        × Reports i l.scanner.name l.scanner.rules_version res err f
        × (w'.scanned ≡ suc w.scanned)
        × (w'.ledger ≡ w.ledger)
        × (w'.broker ≡ w.broker)
  unfolding conclude new_finding
  finished_is_published l ctx turn i w res err live free ran final =
      rw (reached l ctx turn i w res err live free ran, concluded l turn i w res err final)
        (
          new_finding i l.scanner res err turn.scan_end,
          refl,
          new_finding_for-Reports i l.scanner.name l.scanner.rules_version res err turn.scan_end,
          refl,
          refl,
          refl,
        )

  -- A task that the limiter of a spilling lane refuses is not lost: unless the ledger's write fails,
  -- its pair is pending after `pending_retry_base`, with the attempts and the token that it had, and
  -- nothing is published.
  pub refused_is_Parked :
      (l : Lane) (ctx : Context) (turn : Turn) (i : ScanInput) (w : Floor db A publish cfg)
      (e : GoError) (t : db.State) (n : ℕ)
      → turn.is_cancelled ≡ false
      → turn.refusal ≡ some e
      → l.policy ≡ policy_spill
      → enqueue_pending db i.file_id l.scanner.name l.scanner.rules_version cfg.pending_retry_base
          turn.at_write w.ledger
        ≡ done t n
      → let w' = work db A publish cfg l ctx turn i w in
        let old = db.row_at w.ledger (i.file_id, l.scanner.name) in
        (w'.findings ≡ w.findings)
        × (w'.broker ≡ w.broker)
        × Parked db w.ledger w'.ledger i.file_id l.scanner.name l.scanner.rules_version
            (token_of old)
            (submitted_of old)
            (turn.at_write +ℤ cfg.pending_retry_base)
            (attempts_of old)
  unfolding work park is_spill
  refused_is_Parked l ctx turn i w e t n live refused spills written =
      rw (live, work, refused, spills, park, written)
        (
          refl,
          refl,
          enqueue_pending-Parked db i.file_id l.scanner.name l.scanner.rules_version
              cfg.pending_retry_base turn.at_write w.ledger t n written,
        )
