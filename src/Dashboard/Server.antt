-- ===== src/Dashboard/Server.antt =====
-- internal/dashboard/server.go: the handlers, from the parameters of a request (`get`) to what `respond`
-- writes. The queue's rows are what the database answers; none stands for a missing database.
use s3nitor.Prelude.{
  ℕ, ◌^◌, ◌-◌, String, Bool, true, false, Option, none, some, List, [], ◌∷◌, ltb, leb, ◌==◌,
  if◌then◌else◌,
}
use s3nitor.Prelude.Int.{ℤ, pos, negsuc}
use s3nitor.Scanner.{message}
use s3nitor.Fallible.{Try, ok, err}
use s3nitor.Bytes.{codes}
use s3nitor.Config.Getters.{magnitude}
use s3nitor.Dashboard.Query.{Filters}
use s3nitor.Dashboard.Client.{Cluster, Es}
use s3nitor.Dashboard.Api.{Summary, Page, TrendBucket, Gap, summarise, findings, trends, coverage}

-- A status of 200 with a body, or another status with the text of an error.
pub data Response {ℓ} (A : Type ℓ) : Type ℓ where
  served : A → Response A
  refused : ℕ → String → Response A

unfoldable pub respond {ℓ} : {A : Type ℓ} → Try A → Response A
respond (ok a) = served a
respond (err e) = refused 502 (message e)

abbrev pub Params : Type 0
Params = String → String

unfoldable filters_from : Params → Filters
filters_from get = record {
  query = get "q";
  scanner = get "scanner";
  severity = get "severity";
  is_match = get "match";
  since = get "since";
}

unfoldable clamped_above : Option ℕ → ℤ
clamped_above none = pos 0
clamped_above (some n) = if ltb n (2 ^ 63) then pos n else pos (2 ^ 63 - 1)

unfoldable clamped_below : Option ℕ → ℤ
clamped_below none = pos 0
clamped_below (some n) =
    if n == 0 then pos 0 else (if leb n (2 ^ 63) then negsuc (n - 1) else negsuc (2 ^ 63 - 1))

-- The number that strconv.Atoi gives beside its error, which is dropped: 0 for a text that is no number,
-- and the nearest int64 for a number out of range.
unfoldable atoi_value : List ℕ → ℤ
unfolding magnitude clamped_above clamped_below
atoi_value [] = pos 0
atoi_value (c ∷ s) =
    if c == b'-'
    then clamped_below (magnitude s)
    else (if c == b'+' then clamped_above (magnitude s) else clamped_above (magnitude (c ∷ s)))

pub record QueueRow : Type 0 where
  pub scanner : String
  pub status : String
  pub count : ℤ
  pub oldest : String

pub record QueueView : Type 0 where
  pub available : Bool
  pub reason : String
  pub rows : List QueueRow

unfoldable queue_view : Try (List QueueRow) → Try QueueView
queue_view (err e) = err e
queue_view (ok rows) = ok (record { available = true; reason = ""; rows = rows })

unfoldable handle_queue : Option (Try (List QueueRow)) → Response QueueView
unfolding respond queue_view
handle_queue none = respond (
    ok (record {
      available = false;
      reason =
          "no DB_DSN configured; the queue lives in the scanner's ledger, not in Elasticsearch";
      rows = [];
    }))
handle_queue (some answer) = respond (queue_view answer)

module _ (c : Cluster) (e : Es) (swapped : Bool) (get : Params) where
  unfoldable pub handle_summary : Response Summary
  unfolding respond summarise filters_from
  handle_summary = respond (summarise c e swapped (filters_from get))

  unfoldable pub handle_findings : Response Page
  unfolding respond findings filters_from atoi_value
  handle_findings = respond (
      findings c e swapped (filters_from get) (get "sort") (get "order")
        (atoi_value (codes (get "from"))) (atoi_value (codes (get "size"))))

  unfoldable pub handle_trends : Response (List TrendBucket)
  unfolding respond trends filters_from
  handle_trends = respond (trends c e swapped (filters_from get) (get "interval"))

  unfoldable pub handle_coverage : Response (List Gap)
  unfolding respond coverage atoi_value
  handle_coverage = respond (coverage c e (atoi_value (codes (get "limit"))))
