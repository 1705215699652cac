-- ===== src/Sandbox/Http.antt =====
-- internal/sandbox/sandbox.go: decodeJSON and snippet, and what the two backends have in common.
use s3nitor.Prelude.{
  ℕ, ◌*◌, ◌^◌, String, str_append, str_eq, List, [], ◌∷◌, take, length, ltb, ◌==◌, if◌then◌else◌,
  map,
}
use s3nitor.Prelude.Int.{ℤ}
use s3nitor.Scanner.{failure}
use s3nitor.Fallible.{Try, err}
use s3nitor.Bytes.{trim_space}
use s3nitor.Intel.{body, unreadable}
use s3nitor.Reporters.{
  Authorization, anonymous, header, Request, Reply, no_answer, answer, trim_slashes,
}

-- The client, the form that `multipartFile` makes of a file with its content type, and the texts.
pub record Client : Type 0 where
  pub send : Request → Reply
  pub form : String → String → List ℕ → Try (String × String)
  pub of_bytes : List ℕ → String
  pub printed : ℤ → String
  pub code_text : ℕ → String

unfoldable max_answer : ℕ
max_answer = 8 * 2 ^ 20

unfoldable pub snippet : Client → List ℕ → String
snippet c b =
    let s = trim_space b in
    if ltb 200 (length s) then str_append (c.of_bytes (take 200 s)) "…" else c.of_bytes s

unfoldable pub decode_json {ℓ} : {A : Type ℓ} → Client → (List ℕ → Try A) → Reply → Try A
unfolding snippet max_answer
decode_json c unmarshal (no_answer e) = err e
decode_json c unmarshal (answer code status (unreadable e)) = err e
decode_json c unmarshal (answer code status (body b)) =
    if code == 200
    then unmarshal (take max_answer b)
    else err (
        failure (
          str_append "http "
            (str_append (c.code_text code) (str_append ": " (snippet c (take max_answer b))))))

unfoldable pub auth : String → String → Authorization
auth scheme token = if str_eq token "" then anonymous else header (str_append scheme token)

unfoldable pub get : Authorization → String → String → Request
unfolding trim_slashes
get a base path = record {
  method = "GET";
  url = str_append (trim_slashes base) path;
  content_type = "";
  authorization = a;
  lines = [];
}

unfoldable pub post : Authorization → String → String → String × String → Request
unfolding trim_slashes
post a base path (form, content_type) = record {
  method = "POST";
  url = str_append (trim_slashes base) path;
  content_type = content_type;
  authorization = a;
  lines = form ∷ [];
}

-- The states in which an analysis ends, `capeTerminal` and `cuckooTerminal`.
unfoldable pub terminal : List String
terminal = "reported" ∷ "failed_analysis" ∷ "failed_processing" ∷ "failed_reporting" ∷ []

-- The names of the first 20 signatures.
unfoldable pub signature_names : List (String × ℤ) → List String
signature_names ss = take 20 (map (λ p. p.0) ss)
