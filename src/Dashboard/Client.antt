-- ===== src/Dashboard/Client.antt =====
-- internal/dashboard/es.go: NewES and search. The HTTP client with the cluster behind it, and JSON, are
-- the parameters `Cluster`.
use s3nitor.Prelude.{ℕ, String, str_append, str_eq, List, [], ◌∷◌, take, leb, ◌==◌, if◌then◌else◌}
use s3nitor.Prelude.Int.{ℤ}
use s3nitor.Scanner.{Float64, GoError, failure}
use s3nitor.Fallible.{Try, ok, err}
use s3nitor.Bytes.{trim_space}
use s3nitor.Intel.{Body, body, unreadable}
use s3nitor.Reporters.{
  Authorization, anonymous, header, basic, Request, Reply, no_answer, answer, trim_slashes,
}
use s3nitor.Dashboard.Json.{Json, Fields, end}

pub record Cluster : Type 0 where
  pub marshal : Json → Try String
  pub serve : Request → Reply
  pub decoded : Body → Try Fields
  pub of_bytes : List ℕ → String
  pub to_int : Float64 → ℤ

pub record Es : Type 0 where
  pub url : String
  pub index : String
  pub username : String
  pub password : String
  pub api_key : String

unfoldable pub new_es : String → String → String → String → String → Es
unfolding trim_slashes
new_es url index username password key = record {
  url = trim_slashes url;
  index = index;
  username = username;
  password = password;
  api_key = key;
}

unfoldable pub authorization : Es → Authorization
authorization e =
    if str_eq e.api_key ""
    then (if str_eq e.username "" then anonymous else basic e.username e.password)
    else header (str_append "ApiKey " e.api_key)

-- What a refusal says, up to 400 bytes; an error of reading it is dropped.
unfoldable pub refusal : Cluster → String → Body → GoError
refusal c status (unreadable e) = failure (str_append "elasticsearch " (str_append status ": "))
refusal c status (body b) = failure (
    str_append "elasticsearch "
      (str_append status (str_append ": " (c.of_bytes (trim_space (take 400 b))))))

unfoldable pub read_answer : Cluster → Reply → Try Fields
unfolding refusal
read_answer c (no_answer e) = err e
read_answer c (answer code status b) =
    if code == 404 then ok end else (if leb 300 code then err (refusal c status b) else c.decoded b)

unfoldable search_request : Es → String → Request
unfolding authorization
search_request e json = record {
  method = "POST";
  url = str_append e.url (str_append "/" (str_append e.index "/_search"));
  content_type = "application/json";
  authorization = authorization e;
  lines = json ∷ [];
}

unfoldable pub search_index : Cluster → Es → Json → Try Fields
unfolding read_answer search_request
search_index c e request = elim (c.marshal request) [
  | err x ↦ err x
  | ok json ↦ read_answer c (c.serve (search_request e json))
]
