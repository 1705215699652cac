-- ===== src/Pipeline/Delivery.antt =====
-- internal/pipeline/pipeline.go: the publish stage with its flushes, from the documents that arrive to
-- the sink and the database. A later run sees what they leave there.
pub mod Rescans
use s3nitor.Prelude.{ℕ, suc, List, [], ◌∷◌}
use s3nitor.Scanner.{Time}
use s3nitor.Config.{Config}
use s3nitor.Ledger.{TaskTable}
use s3nitor.Records.{RecordTable}
use s3nitor.Pipeline.Publish.{Flush, Event, empty_buffer, run_publish}
use s3nitor.Pipeline.Flush.{Reporter, Store, flush}

module _ (files : RecordTable) (tasks : TaskTable) {S : Type 0} (rep : Reporter S)
    (clock : ℕ → ℕ → Time) where
  -- One call of flush for each batch; the readings of the clock are those of the n-th call.
  unfoldable pub flush_batches : ℕ → List Flush → Store files tasks → S → Store files tasks × S
  flush_batches n [] s sink = (s, sink)
  flush_batches n (b ∷ bs) s sink =
      let (s', sink') = flush files tasks rep (clock n) b.batch s sink in
      flush_batches (suc n) bs s' sink'

  unfoldable pub publish_stage : Config → List Event → Store files tasks → S → Store files tasks × S
  unfolding flush_batches empty_buffer
  publish_stage cfg es s sink = flush_batches 0 (run_publish cfg empty_buffer es).1 s sink
