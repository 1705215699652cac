-- ===== src/Reporters/Elasticsearch.antt =====
-- internal/reporter/elasticsearch.go: findings as documents of an index, one by one or in bulk. The
-- server is a function of the parameter's states.
pub mod Setup
pub mod Served
pub mod Documents
use s3nitor.Prelude.{
  ℕ, String, str_append, str_eq, Bool, true, false, ◌&&◌, ◌||◌, Option, none, some, List, [], ◌∷◌,
  ◌++◌, leb, if◌then◌else◌,
}
use s3nitor.Scanner.{Finding, GoError, failure, wrapped}
use s3nitor.Fallible.{Try, ok, err}
use s3nitor.Intel.{Body}
use s3nitor.Pipeline.Flush.{Reporter}
use s3nitor.Reporters.{
  Authorization, anonymous, header, basic, Request, Reply, no_answer, answer, Texts, snippet,
  trim_slashes,
}

pub record ElasticsearchReporter : Type 0 where
  pub url : String
  pub index : String
  pub api_key : String
  pub username : String
  pub password : String

-- The first half of NewElasticsearchReporter; the client's TLS and the index template come behind it.
unfoldable pub new_elasticsearch_reporter :
    String → String → String → String → String → Try ElasticsearchReporter
unfolding trim_slashes
new_elasticsearch_reporter url index key username password =
    if str_eq url "" || str_eq index ""
    then err (
        failure (
          str_append "invalid elasticsearch config: url="
            (str_append url (str_append " index=" index))))
    else ok (record {
      url = trim_slashes url;
      index = index;
      api_key = key;
      username = username;
      password = password;
    })

unfoldable pub authorize : ElasticsearchReporter → Authorization
authorize r =
    if str_eq r.api_key ""
    then (if str_eq r.username "" then anonymous else basic r.username r.password)
    else header (str_append "ApiKey " r.api_key)

-- One item of a bulk answer: for each operation that it names, the error if there is one.
abbrev Item : Type 0
Item = List (String × Option String)

pub record BulkResult : Type 0 where
  pub errors : Bool
  pub items : List Item

unfoldable error_in : Item → Option String
error_in [] = none
error_in ((name, some e) ∷ details) = some e
error_in ((name, none) ∷ details) = error_in details

unfoldable pub first_error : List Item → Option String
unfolding error_in
first_error [] = none
first_error (item ∷ items) = elim (error_in item) [ some e ↦ some e | none ↦ first_error items ]

unfoldable pub verdict_of : BulkResult → Option GoError
unfolding first_error
verdict_of result =
    if result.errors
    then (elim (first_error result.items) [
      | some e ↦ some (failure (str_append "elasticsearch bulk: " e))
      | none ↦ none
    ])
    else none

module _ (texts : Texts) (decoded : Body → Try BulkResult) (r : ElasticsearchReporter) where
  unfoldable pub put_request : Finding → String → Request
  unfolding authorize
  put_request f json = record {
    method = "PUT";
    url =
        str_append r.url
          (str_append "/" (str_append r.index (str_append "/_doc/" (texts.doc_id f))));
    content_type = "application/json";
    authorization = authorize r;
    lines = json ∷ [];
  }

  refusal : String → String → Body → GoError
  unfolding snippet
  refusal head status b =
      failure (str_append head (str_append status (str_append ": " (snippet texts b))))

  unfoldable pub read_put : Reply → Option GoError
  unfolding refusal
  read_put (no_answer e) = some e
  read_put (answer code status b) =
      if leb 300 code then some (refusal "elasticsearch: " status b) else none

  -- The lines of a bulk request, up to a document that cannot be encoded.
  unfoldable pub encode_batch : List Finding → Try (List String)
  encode_batch [] = ok []
  encode_batch (f ∷ fs) = elim (texts.marshal f) [
    | err e ↦ err e
    | ok json ↦ elim (encode_batch fs) [
      | err e ↦ err e
      | ok lines ↦ ok (texts.meta r.index (texts.doc_id f) ∷ json ∷ lines)
    ]
  ]

  unfoldable pub bulk_request : List String → Request
  unfolding authorize
  bulk_request lines = record {
    method = "POST";
    url = str_append r.url "/_bulk";
    content_type = "application/x-ndjson";
    authorization = authorize r;
    lines = lines;
  }

  unfoldable pub read_bulk : Reply → Option GoError
  unfolding refusal verdict_of
  read_bulk (no_answer e) = some e
  read_bulk (answer code status b) =
      if leb 300 code then some (refusal "elasticsearch bulk: " status b) else (elim (decoded b) [
        | err e ↦ some (wrapped "elasticsearch bulk: decoding response: " e)
        | ok result ↦ verdict_of result
      ])

  module _ {S : Type 0} (serve : Request → S → Reply × S) where
    unfoldable pub report : Finding → S → Option GoError × S
    unfolding put_request read_put
    report f s = elim (texts.marshal f) [
      | err e ↦ (some e, s)
      | ok json ↦ let (reply, s') = serve (put_request f json) s in (read_put reply, s')
    ]

    unfoldable pub report_batch : List Finding → S → Option GoError × S
    unfolding encode_batch bulk_request read_bulk
    report_batch [] s = (none, s)
    report_batch (f ∷ fs) s = elim (encode_batch (f ∷ fs)) [
      | err e ↦ (some e, s)
      | ok lines ↦ let (reply, s') = serve (bulk_request lines) s in (read_bulk reply, s')
    ]

    unfoldable pub elasticsearch : Reporter S
    unfolding report report_batch
    elasticsearch = record { report = report; report_batch = some report_batch }
