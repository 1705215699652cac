-- ===== src/Reporters/Elasticsearch/Setup.antt =====
-- internal/reporter/elasticsearch.go, es_mapping.go: NewElasticsearchReporter with the TLS of its client
-- and the index template. Files, certificates and the JSON of the template are parameters.
use s3nitor.Prelude.{
  String, str_append, str_eq, Bool, not, ◌&&◌, Option, none, some, List, [], ◌∷◌, leb,
  if◌then◌else◌,
}
use s3nitor.Scanner.{GoError, failure, wrapped}
use s3nitor.Fallible.{Try, ok, err, ◌>>=◌}
use s3nitor.Config.{Config}
use s3nitor.Reporters.{Request, Reply, no_answer, answer, Texts, snippet}
use s3nitor.Reporters.Elasticsearch.{ElasticsearchReporter, new_elasticsearch_reporter, authorize}

-- The default transport, or one of its own certificates, if any, with or without verification.
data Transport : Type 0 where
  default_transport : Transport
  with_tls : Option String → Bool → Transport

record Surroundings : Type 0 where
  read_file : String → Try String
  has_certificate : String → Bool
  quoted : String → String
  template : List String → Try String

module _ (world : Surroundings) where
  certificate : String → Try (Option String)
  certificate path = if str_eq path "" then ok none else (elim (world.read_file path) [
    | err e ↦ err (wrapped "reading ES_CA_CERT: " e)
    | ok pem ↦
        if world.has_certificate pem
        then ok (some pem)
        else err (
            failure (
              str_append "ES_CA_CERT "
                (str_append (world.quoted path) " contains no usable certificate")))
  ])

  unfoldable es_transport : Config → Try Transport
  unfolding certificate
  es_transport cfg =
      if str_eq cfg.es_ca_cert "" && not cfg.es_insecure_skip_verify
      then ok default_transport
      else (certificate cfg.es_ca_cert >>= λ pem. ok (with_tls pem cfg.es_insecure_skip_verify))

  unfoldable template_request : ElasticsearchReporter → String → Request
  unfolding authorize
  template_request r json = record {
    method = "PUT";
    url = str_append r.url "/_index_template/s3nitor-findings";
    content_type = "application/json";
    authorization = authorize r;
    lines = json ∷ [];
  }

  module _ (texts : Texts) {S : Type 0} (serve : Request → S → Reply × S) where
    read_template : Reply → Option GoError
    unfolding snippet
    read_template (no_answer e) = some e
    read_template (answer code status b) =
        if leb 300 code
        then some (
            failure (
              str_append "installing index template: "
                (str_append status (str_append ": " (snippet texts b)))))
        else none

    unfoldable ensure_template : ElasticsearchReporter → S → Option GoError × S
    unfolding template_request read_template
    ensure_template r s = elim (world.template (r.index ∷ str_append r.index "-*" ∷ [])) [
      | err e ↦ (some e, s)
      | ok json ↦ let (reply, s') = serve (template_request r json) s in (read_template reply, s')
    ]

    -- An error of the template is logged only.
    unfoldable set_up : Config → S → Try (ElasticsearchReporter × Transport) × S
    unfolding es_transport ensure_template new_elasticsearch_reporter
    set_up cfg s =
        elim (new_elasticsearch_reporter cfg.es_url cfg.es_index cfg.es_api_key cfg.es_username
          cfg.es_password) [
            | err e ↦ (err e, s)
            | ok r ↦ elim (es_transport cfg) [
              | err e ↦ (err e, s)
              | ok transport ↦ (ok (r, transport), (ensure_template r s).1)
            ]
          ]
