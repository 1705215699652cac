-- ===== src/Examples/Rescans.antt =====
-- Two runs over the tables in memory, with a sink that refuses its second batch.
use s3nitor.Prelude.{
  ℕ, suc, ◌≡◌, refl, ◌&&◌, ◌==◌, not, true, String, some, none, List, [], ◌∷◌, any, if◌then◌else◌,
}
use s3nitor.Prelude.Int.{pos, wrap64, ◌+ℤ◌}
use s3nitor.Scanner.{failure, Time}
use s3nitor.Pipeline.Discover.{ObjectRef, Discovered, flush}
use s3nitor.Pipeline.Discover.Coverage.{Answered, names, is_scannable}
use s3nitor.Pipeline.Publish.{
  Event, arrive, timeout, closed, empty_buffer, run_publish, publish_step, estimate_size, appended,
}
use s3nitor.Pipeline.Flush.{Reporter, Store, send}
use s3nitor.Pipeline.Flush.Verdicts.{is_verdict_on}
use s3nitor.Pipeline.Delivery.{publish_stage}
use s3nitor.Pipeline.Delivery.Rescans.{taken, rescans_unpublished}
use s3nitor.Examples.Data.{files, tasks, files_write, identity, verdict_of}
use s3nitor.Examples.Stages.{config, object}

abbrev lossy : Reporter ℕ
lossy = record {
  report = λ f n. (none, n);
  report_batch = some (λ fs n. (if n == 1 then some (failure "refused") else none, suc n));
}

abbrev clocks : ℕ → ℕ → Time
clocks n m = pos m

abbrev no_rows : Store files tasks
no_rows = record { records = []; ledger = [] }

abbrev kept : String
kept = "b\0kept\0v\0"

abbrev lost : String
lost = "b\0lost\0v\0"

abbrev first_run : List Event
first_run =
    arrive (verdict_of kept "yara")
    ∷ timeout
    ∷ arrive (verdict_of lost "yara")
    ∷ timeout
    ∷ closed
    ∷ []

abbrev refs : List ObjectRef
refs = object "kept" (pos 3) ∷ object "lost" (pos 3) ∷ []

abbrev nothing : Discovered
nothing = record { jobs = []; notices = []; listed = 0; skipped = 0 }

one_batch_went :
    taken files tasks lossy clocks (run_publish config empty_buffer first_run).1 0
    ≡ verdict_of kept "yara" ∷ []
unfolding run_publish empty_buffer publish_step estimate_size appended wrap64 ◌+ℤ◌ send
one_batch_went = refl

rescans_unpublished_example :
    let (after, sink') = publish_stage files tasks lossy clocks config first_run no_rows 0 in
    let (err, d') =
      flush files identity
        (pos 50)
        (failure "ctx")
        (record { records = after.records; sends = λ n. true; clock = λ n. pos n })
        refs
        nothing in
    Answered err (
      any (names files identity (pos 50) (failure "ctx") lost) d'.jobs ≡ (
        any (is_scannable files identity (pos 50) (failure "ctx") lost) refs
        && not (
            any
              (is_verdict_on lost)
              (taken files tasks lossy clocks (run_publish config empty_buffer first_run).1 0))))
rescans_unpublished_example =
    rescans_unpublished files tasks lossy clocks files_write config first_run no_rows 0 identity
      (pos 50) (failure "ctx") (λ n. true) (λ n. pos n) refs nothing lost
