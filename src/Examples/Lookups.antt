-- ===== src/Examples/Lookups.antt =====
-- The theorems on lookups at concrete inputs.
use s3nitor.Prelude.{
  ◌≡◌, ◌≢◌, refl, inl, inr, String, true, none, some, Option-cases, List, [], ◌∷◌, arith,
}
use s3nitor.Prelude.Int.{pos, ◌+ℤ◌, ◌≤ℤ◌, int_laws}
use s3nitor.Scanner.{ScanInput, Time, Result, GoError, severity_high, hash_of}
use s3nitor.Table.{look_failed}
use s3nitor.Ledger.{same_task}
use s3nitor.Ledger.Claims.{same_task_refl}
use s3nitor.Intel.{
  IntelCache, IntelTable, intel_key, Json, Lookup, State, response, body, parsed, intel_scan,
  get_intel, put_intel, cache_row, is_exhausted,
}
use s3nitor.Intel.Cache.{scan_each, answers, intel_scan_keeps_quota}
use s3nitor.Intel.Once.{second_lookup_is_free}
use s3nitor.Examples.Rows.{list_table, look}
use s3nitor.Examples.Data.{task_same, input}

abbrev intel : IntelTable
intel = list_table (String × String) IntelCache intel_key same_task same_task_refl task_same

intel_reads :
    (k : String × String) (x : intel.State) (e : GoError) → intel.first k x ≢ look_failed e
intel_reads k x e h = elim (Option-cases (intel.row_at x k)) [
  | inl gone ↦ absurd (ground (arith, rw (gone, look) at h))
  | inr (r, there) ↦ absurd (ground (arith, rw (there, look) at h))
]

abbrev malicious : Result
malicious = record { is_match = true; severity = severity_high; detail = [] }

abbrev json : Json
json = record { marshal = λ d. some "{}"; unmarshal = λ s. some [] }

abbrev lookup : Lookup
lookup = record {
  provider = record {
    name = "otx";
    ask = λ sha. response 200 (body []);
    parse = λ b. parsed malicious;
  };
  cache_ttl = pos 100;
  daily_quota = pos 1;
  printed = λ n. "1";
}

abbrev hashed : ScanInput
hashed = record input { hashes = ("sha256", "aa") ∷ [] }

abbrev start : State intel json lookup
start = record { cache = []; spent = pos 0 }

abbrev scans : List (ScanInput × Time × Time)
scans =
    (hashed, pos 5, pos 6)
    ∷ (hashed, pos 7, pos 8)
    ∷ (record input { hashes = ("sha256", "bb") ∷ [] }, pos 9, pos 10)
    ∷ []

intel_scan_keeps_quota_example :
    let s' = scan_each intel json lookup scans start in
    (s'.spent ≡ pos 0 +ℤ pos (answers intel json lookup scans start)) × (s'.spent ≤ℤ pos 1)
intel_scan_keeps_quota_example =
    intel_scan_keeps_quota intel json lookup scans start (omega arith)
      (record { above = omega arith; below = omega arith }) (omega arith) (omega arith)

second_lookup_is_free_example :
    let s' = (intel_scan intel json lookup hashed (pos 5) (pos 6) start).1 in
    let ((r, e), s'') = intel_scan intel json lookup hashed (pos 50) (pos 51) s' in
    (e ≡ none) × (r.is_match ≡ true) × (r.severity ≡ severity_high) × (s'' ≡ s')
unfolding get_intel put_intel cache_row is_exhausted ◌+ℤ◌ hash_of
second_lookup_is_free_example =
    second_lookup_is_free intel json lookup hashed hashed (pos 5) (pos 6) (pos 50) (pos 51) start []
      malicious _ 1 intel_reads refl refl refl refl refl refl refl (omega int_laws)
