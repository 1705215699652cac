-- ===== src/Examples/Views.antt =====
-- A search engine for the queries of the dashboard, and the theorems on its views at concrete inputs.
use s3nitor.Prelude.{ℕ, ◌≡◌, refl, String, Bool, true, false, ◌&&◌, List, [], ◌∷◌}
use s3nitor.Prelude.Int.{pos}
use s3nitor.Fallible.{ok}
use s3nitor.Intel.{body}
use s3nitor.Reporters.{Reply, answer}
use s3nitor.Dashboard.Json.{
  Json, Items, Fields, bool, text, array, object, nil, item, end, field, value_at,
}
use s3nitor.Dashboard.Query.{Filters, query}
use s3nitor.Dashboard.Filtered.{is_text, is_bool}
use s3nitor.Dashboard.Client.{Cluster, Es, new_es, search_index, read_answer}
use s3nitor.Dashboard.Server.{
  served, Params, handle_summary, handle_findings, handle_trends, handle_coverage,
}
use s3nitor.Dashboard.Views.{Skipped, answer_of}
use s3nitor.Dashboard.Missing.{no_scans, empty_page, missing_index_is_empty}

unfoldable mutual
  -- Wildcards and ranges let everything through.
  accepts : Json → Fields → Bool
  accepts (object (field name (object inner) end)) d = reads name inner d
  accepts _ d = false

  reads : String → Fields → Fields → Bool
  reads name end d = true
  reads name (field k (array ms) (field l (array fs) end)) d =
      accepts_each ms d && accepts_each fs d
  reads name (field k (text v) end) d = is_text v (value_at k d)
  reads name (field k (bool b) end) d = is_bool b (value_at k d)
  reads name _ d = true

  accepts_each : Items → Fields → Bool
  accepts_each nil d = true
  accepts_each (item q qs) d = accepts q d && accepts_each qs d

abbrev high_of_yara : Filters
high_of_yara = record {
  query = "invoices/";
  scanner = "yara";
  severity = "high";
  is_match = "true";
  since = "now-7d";
}

abbrev stored : Fields
stored =
    field "scanner" (text "yara") (field "severity" (text "high") (field "match" (bool true) end))

abbrev skipped : String → ℕ → Skipped
skipped key size = record {
  bucket = "b";
  key = key;
  size = record { bits = size };
  reason = "exceeds_max_object_size";
  limit = record { bits = 4 };
  scanned_at = "t";
}

abbrev gaps_found : List Skipped
gaps_found = skipped "small" 5 ∷ skipped "large" 9 ∷ []

abbrev cluster : Reply → Fields → Cluster
cluster reply decoded = record {
  marshal = λ x. ok "{}";
  serve = λ r. reply;
  decoded = λ b. ok decoded;
  of_bytes = λ bs. "";
  to_int = λ f. pos f.bits;
}

abbrev es : Es
es = new_es "http://es:9200/" "findings" "" "" ""

abbrev full : Cluster
full = cluster (answer 200 "200 OK" (body [])) (answer_of gaps_found)

answered : (request : Json) → search_index full es request ≡ ok (answer_of gaps_found)
unfolding search_index read_answer
answered request = refl

abbrev bare : Cluster
bare = cluster (answer 404 "404 Not Found" (body [])) end

abbrev no_params : Params
no_params name = ""

missing_index_is_empty_example :
    (handle_summary bare es false no_params ≡ served no_scans)
    × (handle_findings bare es false no_params ≡ served empty_page)
    × (handle_trends bare es false no_params ≡ served [])
    × (handle_coverage bare es false no_params ≡ served [])
missing_index_is_empty_example =
    missing_index_is_empty bare es (λ x. ("{}", refl)) false no_params "404 Not Found" (body [])
      (λ r. refl)
