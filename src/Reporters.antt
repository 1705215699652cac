-- ===== src/Reporters.antt =====
-- internal/reporter: the sinks of findings, and the choice of one (factory.go). What a server does
-- with a request, what json.Marshal makes of a value, and the other texts are parameters.
pub mod Elasticsearch
pub mod Plain
use s3nitor.Prelude.{
  ℕ, String, str_append, str_eq, Bool, ◌&&◌, Option, none, some, List, [], ◌∷◌, take, leb,
  if◌then◌else◌,
}
use s3nitor.Scanner.{Finding, Severity, Time, GoError, failure}
use s3nitor.Fallible.{Try, ok, err}
use s3nitor.Bytes.{trim_space}
use s3nitor.Intel.{Body, body, unreadable}
use Prim.Native.Char.{code}
use s3nitor.Prelude.{◌==◌}

-- The credentials of a request.
pub data Authorization : Type 0 where
  anonymous : Authorization
  header : String → Authorization
  basic : String → String → Authorization

pub record Request : Type 0 where
  pub method : String
  pub url : String
  pub content_type : String
  pub authorization : Authorization
  pub lines : List String

-- `no_answer` is an error of http.NewRequest or of the client. `status` is the text of the code.
pub data Reply : Type 0 where
  no_answer : GoError → Reply
  answer : ℕ → String → Body → Reply

pub record Texts : Type 0 where
  pub marshal : Finding → Try String
  pub meta : String → String → String
  pub stream : String → Severity → Time → String → Try String
  pub of_bytes : List ℕ → String
  pub doc_id : Finding → String

-- `strings.TrimRight(s, "/")`.
unfoldable pub trim_slashes : String → String
trim_slashes String.[] = ""
trim_slashes (String.◌∷◌ c s) =
    let rest = trim_slashes s in if code c == b'/' && str_eq rest "" then "" else String.◌∷◌ c rest

-- What the body of a refusal says, up to 512 bytes.
unfoldable pub snippet : Texts → Body → String
snippet texts (unreadable e) = "no body"
snippet texts (body []) = "no body"
snippet texts (body (b ∷ bs)) = texts.of_bytes (trim_space (take 512 (b ∷ bs)))

-- The types that Build knows; the names of the constructors are those of the functions that it calls.
pub data Sink : Type 0 where
  json_reporter elasticsearch_reporter loki_reporter : Sink

unfoldable build : String → Try Sink
build reporter_type =
    if str_eq reporter_type "json"
    then ok json_reporter
    else (if str_eq reporter_type "elasticsearch"
        then ok elasticsearch_reporter
        else (if str_eq reporter_type "loki"
            then ok loki_reporter
            else (if str_eq reporter_type ""
                then ok json_reporter
                else (if str_eq reporter_type "prometheus"
                    then err (
                        failure
                          "REPORTER_TYPE=prometheus is not a thing: Prometheus scrapes. Metrics are served on METRICS_ADDR; pick json, elasticsearch or loki for findings")
                    else err (failure (str_append "unknown reporter type: " reporter_type))))))
