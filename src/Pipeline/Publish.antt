-- ===== src/Pipeline/Publish.antt =====
-- internal/pipeline/pipeline.go, the publish stage: runPublish as a step for each case of its
-- select, and estimateSize. What a step flushes is a list of batches with their triggers.
pub mod Batches
pub mod Bounds
pub mod Timer
use s3nitor.Prelude.{
  ℕ, suc, ◌+◌, ◌*◌, String, Bool, true, false, List, [], ◌∷◌, ◌++◌, length, ◌==◌, if◌then◌else◌,
}
use s3nitor.Prelude.Text.{byte_length}
use s3nitor.Prelude.Int.{ℤ, pos, ◌+ℤ◌, leb_ℤ, wrap64}
use s3nitor.Scanner.{Finding}
use s3nitor.Config.{Config}

unfoldable pub estimate_size : Finding → ℤ
unfolding byte_length
estimate_size f =
    pos (
      512 + byte_length f.bucket + byte_length f.key + byte_length f.scanner + length f.detail * 96)

pub record Buffer : Type 0 where
  pub batch : List Finding
  pub batch_bytes : ℤ
  pub timer : Bool  -- whether the flush timer runs

unfoldable pub empty_buffer : Buffer
empty_buffer = record { batch = []; batch_bytes = pos 0; timer = false }

-- The cases of the select. A timeout is received only while the timer runs.
pub data Event : Type 0 where
  arrive : Finding → Event
  timeout closed cancelled : Event

pub record Flush : Type 0 where
  pub batch : List Finding
  pub trigger : String

-- `if len(batch) > 0 { p.flush(ctx, batch, trigger) }`.
unfoldable pub flush_rest : List Finding → String → List Flush
flush_rest [] trigger = []
flush_rest (f ∷ fs) trigger = record { batch = f ∷ fs; trigger = trigger } ∷ []

-- The timer is stopped, and a batch that was flushed is dropped with its size.
unfoldable pub emptied : Buffer → List Finding → Buffer
unfolding empty_buffer
emptied b [] = record b { timer = false }
emptied b (f ∷ fs) = empty_buffer

module _ (cfg : Config) where
  oversize : Buffer → Finding → Buffer × List Flush
  unfolding emptied flush_rest
  oversize b f = (
    emptied b b.batch,
    flush_rest b.batch "bytes" ++ record { batch = f ∷ []; trigger = "oversize" } ∷ [],
  )

  -- A batch that fills is flushed; the timer starts with the first document of a batch.
  filled : Buffer → String → Buffer × List Flush
  unfolding empty_buffer
  filled b trigger = (empty_buffer, record { batch = b.batch; trigger = trigger } ∷ [])

  unfoldable pub appended : Buffer → Buffer × List Flush
  unfolding filled
  appended b =
      if leb_ℤ cfg.publish_batch_size (pos (length b.batch))
      then filled b "size"
      else (if leb_ℤ cfg.publish_max_bytes b.batch_bytes then filled b "bytes" else (b, []))

  received : Buffer → Finding → Buffer × List Flush
  unfolding oversize
  received b f =
      let size = estimate_size f in
      if leb_ℤ cfg.publish_max_bytes size
      then oversize b f
      else (let batch = b.batch ++ f ∷ [] in
          appended (record {
            batch = batch;
            batch_bytes = wrap64 (b.batch_bytes +ℤ size);
            timer = if length batch == 1 then true else b.timer;
          }))

  unfoldable pub publish_step : Buffer → Event → Buffer × List Flush
  unfolding received emptied flush_rest
  publish_step b (arrive f) = received b f
  publish_step b timeout =
      if b.timer then (emptied b b.batch, flush_rest b.batch "interval") else (b, [])
  publish_step b closed = (emptied b b.batch, flush_rest b.batch "shutdown")
  publish_step b cancelled = (emptied b b.batch, flush_rest b.batch "cancelled")

  -- The loop ends with the channel or the context.
  unfoldable pub run_publish : Buffer → List Event → Buffer × List Flush
  run_publish b [] = (b, [])
  run_publish b (closed ∷ es) = publish_step b closed
  run_publish b (cancelled ∷ es) = publish_step b cancelled
  run_publish b (e ∷ es) =
      let (b', out) = publish_step b e in let (b'', more) = run_publish b' es in (b'', out ++ more)
