-- ===== src/Examples/Workers.antt =====
-- The theorems on the verdicts, the digests and the worker at concrete inputs.
use s3nitor.Prelude.{◌≡◌, ◌≢◌, refl, ◌⊎◌, inl, true, false, String, str_eq, none, [], ◌∷◌, arith}
use s3nitor.Prelude.Int.{pos}
use s3nitor.Scanner.{Finding, severity_info, severity_high, doc_text}
use s3nitor.Scanner.Verdict.{SameVerdictKey, doc_id_inj}
use s3nitor.Hashing.{Digest}
use s3nitor.Records.{seen_file_ids}
use s3nitor.Records.Dedup.{Tells, seen_file_ids-Tells}
use s3nitor.Async.Continuation.{Continuation}
use s3nitor.Async.Worker.{
  Worker, World, Readings, Texts, Sink, Collector, verdict, handle, collector_of, new_worker,
}
use s3nitor.Async.Worker.Verdicts.{Outcome, handle-Outcome, abandoned_is_published}
use s3nitor.Examples.Data.{files, tasks, identity, verdict_of, record_for}
use s3nitor.Examples.Stores.{ledger}

seen_file_ids-Tells_example :
    Tells "id2" true (seen_file_ids files ("id1" ∷ "id2" ∷ []) (record_for "id2" ∷ []))
seen_file_ids-Tells_example =
    seen_file_ids-Tells files (record_for "id2" ∷ []) ("id1" ∷ "id2" ∷ []) "id2" refl

doc_id_inj_example :
    SameVerdictKey (verdict_of "id1" "yara") (verdict_of "id1" "yara")
    ⊎ ((doc_text (verdict_of "id1" "yara") ≢ doc_text (verdict_of "id1" "yara"))
        × (doc_text (verdict_of "id1" "yara") ≡ doc_text (verdict_of "id1" "yara")))
doc_id_inj_example =
    doc_id_inj identity (verdict_of "id1" "yara") (verdict_of "id1" "yara") (ground arith)
      (ground arith) (ground arith) (ground arith) refl

abbrev digest : Digest
digest = record { md5_hex = λ w. "m"; sha1_hex = λ w. "s"; sha256_hex = λ w. "t" }

abbrev bucket : String
bucket = "b"

abbrev key : String
key = "k"

abbrev version : String
version = "v"

abbrev sandbox : Collector
sandbox = record {
  name = "cape";
  poll = λ token. verdict (record { is_match = true; severity = severity_high; detail = [] });
}

abbrev pub open_sink : Sink
open_sink f taken = none

abbrev pub texts : Texts
texts = record { quoted = λ s. s; printed = λ d. "1h" }

abbrev pub worker : Worker
worker = new_worker (sandbox ∷ []) (record {
  instance_name = "w1";
  poll_interval = pos 60;
  sweep_every = pos 0;
  lease_for = pos 0;
  max_age = pos 1000;
  batch = pos 0;
})

abbrev pub world : World tasks files open_sink texts worker
world = record { ledger = ledger; records = []; published = [] }

abbrev continuation : String → Continuation
continuation name = record {
  file_id = "id1";
  bucket = "b";
  key = "k";
  version = "v";
  size = pos 9;
  hashes = [];
  scanner = name;
  rules_version = "r1";
  token = "42";
  submitted_at = pos 4;
  poll_after = pos 10;
}

abbrev pub readings : Readings
readings = record { at_age = pos 20; at_poll = pos 21; at_finding = pos 22; at_write = pos 23 }

handle-Outcome_example :
    Outcome tasks files open_sink texts worker
      (continuation "cape")
      world
      (handle tasks files open_sink texts worker (continuation "cape") readings world)
handle-Outcome_example =
    handle-Outcome tasks files open_sink texts worker (continuation "cape") readings world

abandoned_is_published_example :
    (f : Finding) × ((handle tasks files open_sink texts worker
        (continuation "vt")
        readings
        world).published
      ≡ f ∷ [])
    × (f.file_id ≡ "id1")
    × (f.scanner ≡ "vt")
    × (f.severity ≡ severity_info)
    × (str_eq f.error "" ≡ false)
unfolding new_worker collector_of
abandoned_is_published_example =
    abandoned_is_published tasks files open_sink texts worker (continuation "vt") readings world
      (inl refl) (λ f. refl)

abbrev recorded : World tasks files open_sink texts worker
recorded = record world { records = record_for "id1" ∷ [] }
