-- ===== src/Examples/Stages.antt =====
-- The theorems on the discovery, the download, the payload and the publication at concrete inputs.
use s3nitor.Prelude.{
  length, ◌+◌, ℕ, suc, ◌≡◌, refl, ◌⊎◌, Bool, true, false, String, str_append, none, some, List, [],
  ◌∷◌, any, arith,
}
use s3nitor.Prelude.Int.{ℤ, pos}
use s3nitor.Scanner.{failure, Finding, Time}
use s3nitor.Config.{Config, load}
use s3nitor.Config.Getters.{Parsers}
use s3nitor.Hashing.{Digest}
use s3nitor.Records.{seen_file_ids, seen_chunk, chunk}
use s3nitor.Pipeline.Discover.{
  ObjectRef, Moment, Event, arrive, timeout, closed, Discovered, flush as flush_batch, run_discover,
}
use s3nitor.Pipeline.Discover.Coverage.{Answered, names, flush_hands_over_new}
use s3nitor.Pipeline.Discover.Parts.{IsPart, refs_of}
use s3nitor.Pipeline.Discover.Accounts.{empty_stage, arrived, run_discover_accounts_for_all}
use s3nitor.Pipeline.Fetch.{Turn, Answers}
use s3nitor.Pipeline.Payload.{
  Payload, Stop, readers, accepted, full, policy_block, policy_spill, dispatch, all_ended,
}
use s3nitor.Pipeline.Payload.References.{IsCounted}
use s3nitor.Pipeline.Payload.Lifetime.{dispatch-IsCounted}
use s3nitor.Pipeline.Publish.{
  arrive as arrive_doc, timeout as flush_timeout, closed as channel_closed, empty_buffer,
  run_publish,
}
use s3nitor.Pipeline.Publish.Batches.{flushed, run_publish_flushes_all}
use s3nitor.Pipeline.Flush.{Reporter, Store, send, flush}
use s3nitor.Pipeline.Flush.Verdicts.{is_verdict_on, is_verdict_of}
use s3nitor.Pipeline.Flush.Accepted.{flush_records_only_accepted}
use s3nitor.Examples.Data.{
  files, tasks, identity, yara, cape, ioc, input, verdict_of, task_of, record_for,
}

-- No text is a number here.
abbrev parsers : Parsers
parsers = record {
  parse_float = λ s. none;
  parse_duration = λ s. none;
  of_int = λ n. record { bits = 0 };
  is_negative = λ x. false;
  mul = λ x y. x;
  to_int64 = λ x. pos 0;
  text = λ s. "";
}

abbrev pub config : Config
config = record (load (λ k. none) parsers) {
  fetch_byte_budget = pos 100;
  fetch_max_conns = pos 2;
  max_object_size = pos 50;
  analyze_cpu_limit = pos 2;
  publish_batch_size = pos 2;
  publish_flush_interval = pos 5;
  publish_max_bytes = pos 100_000;
  stage_queue_size = pos 1;
  spill_scanners = "cape" ∷ [];
  scanner_rate_per_min = [];
  pending_retry_base = pos 30;
  async_poll_interval = pos 60;
}

-- A sink that takes everything and counts.
abbrev counting : Reporter ℕ
counting = record { report = λ f n. (none, suc n); report_batch = none }

abbrev empty_store : Store files tasks
empty_store = record { records = []; ledger = task_of "id1" "yara" "" ∷ [] }

abbrev clock : ℕ → Time
clock n = pos n

abbrev two_verdicts : List Finding
two_verdicts = verdict_of "id1" "yara" ∷ verdict_of "id1" "ioc" ∷ []

flush_records_only_accepted_example :
    let s' = (flush files tasks counting clock two_verdicts empty_store 0).0 in
    ((files.row_at s'.records "id2" ≡ none)
      ⊎ (((send counting two_verdicts 0).0 ≡ none)
          × (any (is_verdict_on "id2") two_verdicts ≡ true)))
    × ((tasks.row_at s'.ledger ("id1", "ioc") ≡ none)
        ⊎ (((send counting two_verdicts 0).0 ≡ none)
            × (any (is_verdict_of ("id1", "ioc")) two_verdicts ≡ true)))
flush_records_only_accepted_example =
    flush_records_only_accepted files tasks counting clock two_verdicts empty_store 0 "id2"
      ("id1", "ioc")

run_publish_flushes_all_example :
    flushed
      (run_publish config empty_buffer
        (arrive_doc (verdict_of "id1" "yara") ∷ flush_timeout ∷ channel_closed ∷ [])).1
    ≡ verdict_of "id1" "yara" ∷ []
run_publish_flushes_all_example =
    run_publish_flushes_all config
      (arrive_doc (verdict_of "id1" "yara") ∷ flush_timeout ∷ channel_closed ∷ []) refl

abbrev payload : Payload
payload = record { input = input; refs = pos 0; is_freed = false; removals = 0; releases = 0 }

abbrev stops : List Stop
stops =
    record { scanner = yara; policy = policy_block; met = accepted }
    ∷ record { scanner = cape; policy = policy_spill; met = full }
    ∷ record { scanner = ioc; policy = policy_block; met = accepted }
    ∷ []

dispatch-IsCounted_example :
    IsCounted 0
      (all_ended (yara ∷ []) (dispatch tasks (pos 30) (λ s. pos 7) stops payload []).payload)
unfolding readers dispatch
dispatch-IsCounted_example =
    dispatch-IsCounted tasks (pos 30) (λ s. pos 7) stops payload [] (yara ∷ []) 0 (omega arith)
      (refl, refl, refl) refl

abbrev pub object : String → ℤ → ObjectRef
object key size = record {
  bucket = "b";
  key = key;
  version = "v";
  size = size;
  last_modified = pos 0;
}

abbrev moment : Moment files
moment = record { records = record_for "b\0old\0v\0" ∷ []; sends = λ n. true; clock = λ n. pos n }

abbrev nothing : Discovered
nothing = record { jobs = []; notices = []; listed = 0; skipped = 0 }

flush_hands_over_new_example :
    any
      (names files identity (pos 50) (failure "ctx") "b\0new\0v\0")
      (flush_batch files identity
        (pos 50)
        (failure "ctx")
        moment
        (object "old" (pos 3) ∷ object "new" (pos 3) ∷ object "huge" (pos 99) ∷ [])
        nothing).1.jobs
    ≡ true
unfolding flush_batch seen_file_ids seen_chunk chunk
flush_hands_over_new_example =
    flush_hands_over_new files identity (pos 50) (failure "ctx") moment
      (object "old" (pos 3) ∷ object "new" (pos 3) ∷ object "huge" (pos 99) ∷ []) nothing
      "b\0new\0v\0"

abbrev stream : List (Moment files × Event)
stream =
    (moment, arrive (object "old" (pos 3)))
    ∷ (moment, timeout)
    ∷ (moment, arrive (object "huge" (pos 99)))
    ∷ (moment, closed)
    ∷ []

run_discover_accounts_for_all_example :
    let (err, st) = run_discover files identity (pos 50) (failure "ctx") stream empty_stage in
    Answered err (
      (st.discovered.listed ≡ 2)
      × (length st.discovered.jobs + st.discovered.skipped ≡ 2)
      × IsPart (refs_of st.discovered.jobs) (arrived stream))
run_discover_accounts_for_all_example =
    run_discover_accounts_for_all files identity (pos 50) (failure "ctx") stream refl

abbrev digest : Digest
digest = record { md5_hex = λ w. "m"; sha1_hex = λ w. "s"; sha256_hex = λ w. "t" }

abbrev smooth : Answers
smooth = record {
  bytes = none;
  conn = none;
  opened = none;
  create = none;
  body = (1 ∷ 2 ∷ []) ∷ [];
  copy = none;
  close = none;
}

abbrev in_dir : String → String → String
in_dir dir id = str_append "/tmp/" id

abbrev turn_with : Answers → Bool → Turn digest in_dir "/tmp/"
turn_with a is_sent = record {
  job = record { ref = object "k" (pos 2); file_id = "id1" };
  is_cancelled = false;
  answers = a;
  is_sent = is_sent;
}

abbrev turns : List (Turn digest in_dir "/tmp/")
turns =
    turn_with smooth true
    ∷ turn_with (record smooth { copy = some (failure "reset") }) true
    ∷ turn_with smooth false
    ∷ []
