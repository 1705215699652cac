-- ===== src/Examples/Sinks.antt =====
-- A server of documents in memory, which meets the laws of `IsElasticsearch`, and the theorems on it.
use Prim.Native.String.{len, slice}
use text.Mathlib.TextPositions.{len-append, slice-append_right}
use text.Mathlib.TextLemmas.{append_assoc as str_append_assoc}
use s3nitor.Prelude.{
  ◌≡◌, refl, sym, ap, ◌∙◌, ◌⊎◌, String, str_append, str_eq, false, Option, none, some, List, [],
  ◌∷◌, ◌++◌, if◌then◌else◌, arith,
}
use s3nitor.Prelude.Int.{pos}
use s3nitor.Scanner.{Finding}
use s3nitor.Fallible.{Try, ok}
use s3nitor.Intel.{Body, body}
use s3nitor.Pipeline.Flush.{Store, flush, send_each}
use s3nitor.Reporters.{Authorization, Request, Reply, answer, Texts}
use s3nitor.Reporters.Elasticsearch.{
  ElasticsearchReporter, BulkResult, first_error, report, report_batch, elasticsearch, bulk_request,
}
use s3nitor.Reporters.Elasticsearch.Served.{
  Documents, written, IsElasticsearch, index_request, bulk_lines,
}
use s3nitor.Reporters.Elasticsearch.Documents.{Indexed, bulk_is_report_each, recorded_is_Indexed}
use s3nitor.Examples.Data.{files, tasks, verdict_of}

abbrev texts : Texts
texts = record {
  marshal = λ f. ok f.scanner;
  meta = λ index id. id;
  stream = λ name grade at line. ok line;
  of_bytes = λ b. "";
  doc_id = λ f. f.file_id;
}

abbrev clean : Body → Try BulkResult
clean b = ok (record { errors = false; items = [] })

abbrev sink : ElasticsearchReporter
sink = record { url = "http://es"; index = "findings"; api_key = ""; username = ""; password = "" }

abbrev pairs : List String → Documents
pairs [] = []
pairs (id ∷ []) = []
pairs (id ∷ json ∷ lines) = (id, json) ∷ pairs lines

abbrev prefix : String
prefix = str_append (str_append (str_append sink.url "/") sink.index) "/_doc/"

abbrev id_in : String → String
id_in url = slice url (len prefix) (len url)

abbrev first_line : List String → String
first_line [] = ""
first_line (line ∷ lines) = line

abbrev asked : Request → Documents
asked q = if str_eq q.method "PUT" then (id_in q.url, first_line q.lines) ∷ [] else pairs q.lines

abbrev serve : Request → Documents → Reply × Documents
serve q s = (answer 200 "200 OK" (body []), s ++ asked q)

abbrev docs : Documents → String → Option String
docs s k = written s k none

written-append :
    (s ops : Documents) (k : String) (d : Option String)
    → written (s ++ ops) k d ≡ written ops k (written s k d)
written-append [] ops k d = refl
written-append ((j, json) ∷ s) ops k d =
    written-append s ops k (if str_eq j k then some json else d)

pairs_of_lines : (ops : Documents) → pairs (bulk_lines texts clean sink ops) ≡ ops
pairs_of_lines [] = refl
pairs_of_lines ((id, json) ∷ ops) = ap (◌∷◌ (id, json)) (pairs_of_lines ops)

id_in-prefix : (id : String) → id_in (str_append prefix id) ≡ id
id_in-prefix id =
    ap (slice (str_append prefix id) (len prefix)) (len-append prefix id)
    ∙ slice-append_right prefix id

id_of_request :
    (auth : Authorization) (id json : String)
    → id_in (index_request texts clean sink auth id json).url ≡ id
id_of_request auth id json =
    ap id_in (
      sym (
        str_append_assoc (str_append (str_append sink.url "/") sink.index) "/_doc/" id
        ∙ str_append_assoc (str_append sink.url "/") sink.index (str_append "/_doc/" id)
        ∙ str_append_assoc sink.url "/" (str_append sink.index (str_append "/_doc/" id))))
    ∙ id_in-prefix id

no_items : (b : Body) (result : BulkResult) → clean b ≡ ok result → first_error result.items ≡ none
unfolding first_error
no_items b result e = let items : result.items ≡ [] = ground (arith, e) in ap first_error items

server : IsElasticsearch texts clean sink serve docs
server = record {
  indexes = λ auth id json s s' code status b e accepted k.
      ap (λ p. docs p.1 k) (sym e)
      ∙ written-append s (asked (index_request texts clean sink auth id json)) k none
      ∙ ap (λ j. written ((j, json) ∷ []) k (docs s k)) (id_of_request auth id json);
  tells_errors =
      λ auth ops s s' code status b result e readable no_errors. no_items b result readable;
  indexes_all = λ auth ops s s' code status b result e accepted readable no_error k.
      ap (λ p. docs p.1 k) (sym e)
      ∙ written-append s (pairs (bulk_lines texts clean sink ops)) k none
      ∙ ap (λ o. written o k (docs s k)) (pairs_of_lines ops);
}

abbrev two : List Finding
two = verdict_of "id1" "yara" ∷ verdict_of "id1" "ioc" ∷ []

abbrev store : Store files tasks
store = record { records = []; ledger = [] }

recorded_is_Indexed_example :
    let (store', s') =
      flush files tasks (elasticsearch texts clean sink serve) (λ n. pos n) two store [] in
    (store' ≡ store) ⊎ Indexed texts clean sink serve docs server two [] s'
recorded_is_Indexed_example =
    recorded_is_Indexed texts clean sink serve docs server files tasks (λ n. pos n) two store []

abbrev indexed : Documents
indexed = ("id1", "yara") ∷ ("id1", "ioc") ∷ []

bulk_is_report_each_example :
    docs indexed "id1" ≡ docs (send_each (report texts clean sink serve) two []).1 "id1"
unfolding report_batch send_each report bulk_request
bulk_is_report_each_example =
    bulk_is_report_each texts clean sink serve docs server two [] indexed refl refl "id1"
