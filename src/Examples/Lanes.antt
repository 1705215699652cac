-- ===== src/Examples/Lanes.antt =====
-- The theorems on the lanes, the source, the IOC scanner and the batches at concrete inputs.
use s3nitor.Prelude.{
  ◌≡◌, ◌↔◌, true, refl, ◌⊎◌, inl, true, false, Option, none, some, List, [], ◌∷◌, any, arith, leb,
  ltb, All, map, ◌++◌, if◌then◌else◌,
}
use s3nitor.Prelude.Int.{pos, ◌+ℤ◌, ◌<ℤ◌}
use s3nitor.Scanner.{
  PendingError, Result, new_finding, doc_id, run_scan, as_pending, GoError, failure, pending,
  Finding, Scanner, severity_high, severity_info,
}
use s3nitor.Scanner.Verdict.{Reports}
use s3nitor.Ledger.{enqueue_continuation, enqueue_pending}
use s3nitor.Ledger.Rows.{Parked}
use s3nitor.Async.Continuation.{finding, Continuation, from_input, poll_wait}
use s3nitor.Pipeline.Discover.{ObjectRef}
use s3nitor.Pipeline.Payload.{policy_spill}
use s3nitor.Pipeline.Lane.{Turn as LaneTurn, Lane, shared_cpu, Floor, work, build_lanes}
use s3nitor.Pipeline.Lane.Tasks.{pending_is_Parked, finished_is_published, refused_is_Parked}
use s3nitor.Pipeline.Publish.{
  Event as PublishEvent, arrive as arrive_doc, empty_buffer, run_publish,
}
use s3nitor.Limiter.{FloatOps}
use s3nitor.Pipeline.Publish.Bounds.{IsSmall, run_publish-IsSmall}
use s3nitor.Pipeline.Publish.Timer.{IsTimed, run_publish-IsTimed}
use s3nitor.Async.Resume.{resumed_is_inline}
use s3nitor.Pipeline.Lane.Lanes.{is_named, IsFitting, build_lanes-Fits}
use s3nitor.Source.{Decoded, decoded, undecodable, sent, items}
use s3nitor.Source.Deliveries.{handled_whole, items_acknowledge_what_was_sent}
use s3nitor.Scanner.Ioc.Matches.{IsKnown, ioc_scan_matches}
use s3nitor.Scanner.Ioc.{KnownHashes, ioc_scan}
use s3nitor.Examples.Data.{tasks, identity, yara, cape, input, background, verdict_of}
use s3nitor.Examples.Stages.{config, object}

-- A broker that keeps what it is given.
abbrev Inbox : Type 0
Inbox = List Continuation

abbrev to_inbox : Continuation → Inbox → Option GoError × Inbox
to_inbox c box = (none, c ∷ box)

abbrev lane_of : Scanner → Lane
lane_of s = record {
  scanner = s;
  queue_size = pos 1;
  limiter = shared_cpu;
  policy = policy_spill;
  workers = pos 1;
}

abbrev lane_turn : Option GoError → LaneTurn
lane_turn refusal = record {
  is_cancelled = false;
  refusal = refusal;
  is_sent = true;
  scan_start = pos 100;
  scan_end = pos 110;
  at_write = pos 111;
}

abbrev floor : Floor tasks Inbox to_inbox config
floor = record { ledger = []; broker = []; findings = []; spilled = 0; scanned = 0 }

pending_is_Parked_example :
    let w' =
      work tasks Inbox to_inbox config (lane_of cape) background (lane_turn none) input floor in
    (w'.findings ≡ [])
    × (w'.scanned ≡ 0)
    × (w'.spilled ≡ 1)
    × Parked tasks [] w'.ledger "id1" "cape" "v2" "42" (pos 111) (pos 171) 0
    × (w'.broker
        ≡ from_input input cape (record { token = "42"; retry_after = pos 0 }) (pos 60) (pos 110)
          ∷ [])
unfolding enqueue_continuation run_scan as_pending poll_wait ◌+ℤ◌
pending_is_Parked_example =
    pending_is_Parked tasks Inbox to_inbox config (lane_of cape) background (lane_turn none) input
      floor (pending (record { token = "42"; retry_after = pos 0 }))
      (record { token = "42"; retry_after = pos 0 }) _ 1 refl refl refl refl refl

finished_is_published_example :
    let w' =
      work tasks Inbox to_inbox config (lane_of yara) background (lane_turn none) input floor in
    (f : Finding) × (w'.findings ≡ f ∷ [])
    × Reports input "yara" "r1"
        (record { is_match = true; severity = severity_high; detail = [] })
        none
        f
    × (w'.scanned ≡ 1)
    × (w'.ledger ≡ [])
    × (w'.broker ≡ [])
unfolding run_scan
finished_is_published_example =
    finished_is_published tasks Inbox to_inbox config (lane_of yara) background (lane_turn none)
      input floor (record { is_match = true; severity = severity_high; detail = [] }) none refl refl
      refl (inl refl)

refused_is_Parked_example :
    let turn = lane_turn (some (failure "rate")) in
    let w' = work tasks Inbox to_inbox config (lane_of cape) background turn input floor in
    (w'.findings ≡ [])
    × (w'.broker ≡ [])
    × Parked tasks [] w'.ledger "id1" "cape" "v2" "" (pos 0) (pos 141) 0
unfolding enqueue_pending ◌+ℤ◌
refused_is_Parked_example =
    refused_is_Parked tasks Inbox to_inbox config (lane_of cape) background
      (lane_turn (some (failure "rate"))) input floor (failure "rate") _ 1 refl refl refl refl

-- Floats by their bits, which is enough for whole numbers.
abbrev whole_floats : FloatOps
whole_floats = record {
  of_nat = λ n. record { bits = n };
  le = λ a b. leb a.bits b.bits;
  div = λ a b. a;
}

build_lanes-Fits_example :
    let lanes = build_lanes whole_floats config (pos 2) (yara ∷ cape ∷ []) in
    (any (is_named "cape") lanes ≡ true) × All (IsFitting whole_floats config (pos 2)) lanes
build_lanes-Fits_example = build_lanes-Fits whole_floats config (pos 2) (yara ∷ cape ∷ []) "cape"

abbrev deliveries : List Decoded
deliveries =
    decoded (object "a" (pos 1) ∷ [])
    ∷ undecodable (failure "json")
    ∷ decoded (object "b" (pos 1) ∷ object "c" (pos 1) ∷ [])
    ∷ []

items_acknowledge_what_was_sent_example :
    (whole : List Decoded) × (behind : List Decoded) × (begun : List ObjectRef) × (rest : List
      ObjectRef)
    × (deliveries ≡ whole ++ behind)
    × ((behind ≡ []) × (begun ≡ [])
        ⊎ ((later : List Decoded) × (behind ≡ decoded (begun ++ rest) ∷ later)))
    × (items (λ n. ltb n 2) 0 0 deliveries ≡ handled_whole 0 whole ++ map sent begun)
items_acknowledge_what_was_sent_example =
    items_acknowledge_what_was_sent (λ n. ltb n 2) 0 0 deliveries

abbrev known : List KnownHashes
known = ("sha1", "x" ∷ []) ∷ ("md5", "m" ∷ []) ∷ []

ioc_scan_matches_example :
    let (res, e) = ioc_scan known input in
    (e ≡ none)
    × ((res.is_match ≡ true) ↔ IsKnown input.hashes known)
    × (res.severity ≡ (if res.is_match then severity_high else severity_info))
ioc_scan_matches_example = ioc_scan_matches known input ("md5", "m") [] refl

abbrev documents : List PublishEvent
documents =
    arrive_doc (verdict_of "id1" "yara")
    ∷ arrive_doc (verdict_of "id2" "yara")
    ∷ arrive_doc (verdict_of "id3" "yara")
    ∷ []

run_publish-IsSmall_example : All (IsSmall config) (run_publish config empty_buffer documents).1
run_publish-IsSmall_example = run_publish-IsSmall config documents (omega arith)

run_publish-IsTimed_example : IsTimed (run_publish config empty_buffer documents).0
run_publish-IsTimed_example = run_publish-IsTimed config documents

abbrev ticket : PendingError
ticket = record { token = "42"; retry_after = pos 0 }

abbrev a_match : Result
a_match = record { is_match = true; severity = severity_high; detail = [] }

resumed_is_inline_example :
    let c = from_input input cape ticket (pos 60) (pos 3) in
    (finding c a_match none (pos 9) ≡ new_finding input cape a_match none (pos 9))
    × (doc_id identity (finding c a_match none (pos 9))
        ≡ doc_id identity (new_finding input cape a_match none (pos 9)))
    × (c.submitted_at <ℤ c.poll_after)
resumed_is_inline_example =
    resumed_is_inline identity input cape ticket (pos 60) (pos 3) (pos 9) a_match none (omega arith)
