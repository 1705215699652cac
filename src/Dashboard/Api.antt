-- ===== src/Dashboard/Api.antt =====
-- internal/dashboard/api.go: the four views, each the reading of what a request is answered with.
use s3nitor.Prelude.{String, str_eq, Bool, none, some, List, [], ◌∷◌, map, if◌then◌else◌}
use s3nitor.Prelude.Int.{ℤ, ltb_ℤ}
use s3nitor.Scanner.{Float64}
use s3nitor.Fallible.{Try, ok, ◌>>=◌}
use s3nitor.Dashboard.Json.{
  Fields, object, value_at, dig, buckets, num, text_in, bool_in, map_in, map_or_empty, key_in,
}
use s3nitor.Dashboard.Query.{Filters}
use s3nitor.Dashboard.Requests.{summary_request, findings_request, trends_request, coverage_request}
use s3nitor.Dashboard.Client.{Cluster, Es, search_index}

-- A `map[string]int`.
abbrev Counts : Type 0
Counts = List (String × ℤ)

unfoldable pub put : String → ℤ → Counts → Counts
put key n [] = (key, n) ∷ []
put key n ((k, m) ∷ rest) =
    let others = put key n rest in if str_eq key k then (k, n) ∷ rest else (k, m) ∷ others

pub record Summary : Type 0 where
  pub objects : ℤ
  pub findings : ℤ
  pub matches : ℤ
  pub errors : ℤ
  pub gaps : ℤ
  pub by_severity : Counts
  pub by_scanner : Counts
  pub last_scan : String

pub record Row : Type 0 where
  pub file_id : String
  pub bucket : String
  pub key : String
  pub size : ℤ
  pub scanner : String
  pub is_match : Bool
  pub severity : String
  pub detail : Fields
  pub hashes : Fields
  pub scanned_at : String
  pub error : String

pub record Page : Type 0 where
  pub total : ℤ
  pub items : List Row

pub record TrendBucket : Type 0 where
  pub time : String
  pub total : ℤ
  pub by_severity : Counts

pub record Gap : Type 0 where
  pub key : String
  pub bucket : String
  pub size : ℤ
  pub reason : String
  pub limit : ℤ
  pub scanned_at : String

module _ (to_int : Float64 → ℤ) where
  -- The counts of the buckets that have a text for a key.
  unfoldable pub counted : List Fields → Counts → Counts
  unfolding put num key_in value_at
  counted [] m = m
  counted (b ∷ bs) m = counted bs (elim (key_in (value_at "key" b)) [
    | none ↦ m
    | some key ↦ put key (num to_int (value_at "doc_count" b)) m
  ])

  unfoldable pub summary_of : Fields → Summary
  unfolding counted num dig buckets text_in
  summary_of res =
      let found = λ (path : List String). dig (object res) path in
      record {
        objects = num to_int (found ("aggregations" ∷ "objects" ∷ "value" ∷ []));
        findings = num to_int (found ("hits" ∷ "total" ∷ "value" ∷ []));
        matches = num to_int (found ("aggregations" ∷ "matches" ∷ "doc_count" ∷ []));
        errors = num to_int (found ("aggregations" ∷ "errors" ∷ "doc_count" ∷ []));
        gaps = num to_int (found ("aggregations" ∷ "gaps" ∷ "doc_count" ∷ []));
        by_severity = counted (buckets (found ("aggregations" ∷ "severity" ∷ "buckets" ∷ []))) [];
        by_scanner = counted (buckets (found ("aggregations" ∷ "scanner" ∷ "buckets" ∷ []))) [];
        last_scan = text_in (found ("aggregations" ∷ "last" ∷ "value_as_string" ∷ []));
      }

  unfoldable pub row_of : Fields → Row
  unfolding value_at text_in bool_in num map_or_empty
  row_of src = record {
    file_id = text_in (value_at "file_id" src);
    bucket = text_in (value_at "bucket" src);
    key = text_in (value_at "key" src);
    size = num to_int (value_at "size" src);
    scanner = text_in (value_at "scanner" src);
    is_match = bool_in (value_at "match" src);
    severity = text_in (value_at "severity" src);
    detail = map_or_empty (value_at "detail" src);
    hashes = map_or_empty (value_at "hashes" src);
    scanned_at = text_in (value_at "scanned_at" src);
    error = text_in (value_at "error" src);
  }

  unfoldable pub gap_of : Fields → Gap
  unfolding value_at text_in num map_or_empty
  gap_of src =
      let d = map_or_empty (value_at "detail" src) in
      record {
        key = text_in (value_at "key" src);
        bucket = text_in (value_at "bucket" src);
        size = num to_int (value_at "size" src);
        reason = text_in (value_at "reason" d);
        limit = num to_int (value_at "limit" d);
        scanned_at = text_in (value_at "scanned_at" src);
      }

  unfoldable trend_of : Fields → TrendBucket
  unfolding value_at text_in num dig buckets counted
  trend_of b = record {
    time = text_in (value_at "key_as_string" b);
    total = num to_int (value_at "doc_count" b);
    by_severity = counted (buckets (dig (object b) ("severity" ∷ "buckets" ∷ []))) [];
  }

-- The documents of the hits that have one.
unfoldable pub sources : List Fields → List Fields
unfolding map_in value_at
sources [] = []
sources (h ∷ hs) =
    let rest = sources hs in
    elim (map_in (value_at "_source" h)) [ none ↦ rest | some src ↦ src ∷ rest ]

unfoldable pub hits_of : Fields → List Fields
unfolding sources buckets dig
hits_of res = sources (buckets (dig (object res) ("hits" ∷ "hits" ∷ [])))

-- `sort.SliceStable` by falling size.
unfoldable pub insert_gap : Gap → List Gap → List Gap
insert_gap g [] = g ∷ []
insert_gap g (h ∷ hs) =
    let rest = insert_gap g hs in if ltb_ℤ g.size h.size then h ∷ rest else g ∷ h ∷ hs

unfoldable pub sort_gaps : List Gap → List Gap
unfolding insert_gap
sort_gaps [] = []
sort_gaps (g ∷ gs) = insert_gap g (sort_gaps gs)

module _ (c : Cluster) (e : Es) where
  unfoldable pub summarise : Bool → Filters → Try Summary
  unfolding search_index summary_request summary_of
  summarise swapped f =
      search_index c e (summary_request swapped f) >>= λ res. ok (summary_of c.to_int res)

  unfoldable pub findings : Bool → Filters → String → String → ℤ → ℤ → Try Page
  unfolding search_index findings_request row_of num dig hits_of
  findings swapped f sort_by order from size =
      search_index c e (findings_request swapped f sort_by order from size) >>= λ res. ok (record {
        total = num c.to_int (dig (object res) ("hits" ∷ "total" ∷ "value" ∷ []));
        items = map (row_of c.to_int) (hits_of res);
      })

  unfoldable pub trends : Bool → Filters → String → Try (List TrendBucket)
  unfolding search_index trends_request trend_of dig buckets
  trends swapped f interval = search_index c e (trends_request swapped f interval) >>= λ res. ok (
      map (trend_of c.to_int)
        (buckets (dig (object res) ("aggregations" ∷ "over_time" ∷ "buckets" ∷ []))))

  unfoldable pub coverage : ℤ → Try (List Gap)
  unfolding search_index coverage_request gap_of hits_of sort_gaps
  coverage limit = search_index c e (coverage_request limit) >>= λ res.
      ok (sort_gaps (map (gap_of c.to_int) (hits_of res)))
