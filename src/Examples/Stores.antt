-- ===== src/Examples/Stores.antt =====
-- The theorems on the limiters and the database at concrete inputs.
use s3nitor.Prelude.{zero, ◌≡◌, refl, List, [], ◌∷◌, arith}
use s3nitor.Prelude.Int.{pos, ◌+ℤ◌}
use s3nitor.Limiter.{new_byte_limiter}
use s3nitor.Limiter.Gate.{semaphore_gate}
use s3nitor.Limiter.Admission.{arrive, move, cancel, Action}
use s3nitor.Limiter.Limits.{Bounded, byte_run, byte_in_flight-Bounded}
use s3nitor.Ledger.{ScanTask, claim_pending, claim_update, under_lease}
use s3nitor.Ledger.Claims.{Ends, claim_pending-Ends, claim_update_once}
use s3nitor.Examples.Data.{tasks, semaphore, task_of}

-- Two calls that want the whole budget: the second waits until the first is released.
abbrev contended : List Action
contended = arrive (pos 8) ∷ move 0 ∷ move 0 ∷ arrive (pos 9) ∷ move 0 ∷ cancel 0 ∷ []

byte_in_flight-Bounded_example :
    Bounded
      (semaphore_gate semaphore)
      (new_byte_limiter semaphore "bytes" (pos 8)).budget
      (byte_run semaphore "bytes" (pos 8) contended)
byte_in_flight-Bounded_example =
    byte_in_flight-Bounded semaphore "bytes" (pos 8) contended (omega arith)

abbrev released : List Action
released = arrive (pos 8) ∷ move 0 ∷ move 0 ∷ move 0 ∷ move 0 ∷ move 0 ∷ []

abbrev pub ledger : List ScanTask
ledger = task_of "id1" "cape" "42" ∷ task_of "id2" "cape" "" ∷ []

claim_pending-Ends_example :
    Ends tasks "w1"
      (pos 300)
      (pos 20)
      ledger
      1
      (claim_pending tasks "w1" (pos 300) (pos 20) 1 ledger)
claim_pending-Ends_example = claim_pending-Ends tasks "w1" (pos 300) (pos 20) 1 ledger

-- The row after the claim of the first task at time 20.
abbrev claimed_ledger : List ScanTask
claimed_ledger =
    record (task_of "id1" "cape" "42") {
      status = "running";
      leased_by = "w1";
      lease_expires_at = pos 320;
      attempts = 2;
      started_at = pos 20;
      updated_at = pos 20;
    }
    ∷ task_of "id2" "cape" ""
    ∷ []

claim_update_once_example :
    (zero ≡ zero)
    × (tasks.row_at claimed_ledger ("id1", "cape") ≡ tasks.row_at claimed_ledger ("id1", "cape"))
unfolding claim_update under_lease ◌+ℤ◌
claim_update_once_example =
    claim_update_once tasks (task_of "id1" "cape" "42") "w1" "w2" (pos 300) (pos 300) (pos 20)
      (pos 21) ledger claimed_ledger claimed_ledger 0 refl refl refl

abbrev done_ledger : List ScanTask
done_ledger =
    record (task_of "id1" "cape" "42") {
      status = "done";
      finished_at = pos 20;
      updated_at = pos 20;
    }
    ∷ task_of "id2" "cape" ""
    ∷ []
