-- ===== src/Reporters/Plain.antt =====
-- internal/reporter/json.go and loki.go: findings as lines of a file or of standard output, and as
-- entries of a log stream. What the file system and the server do are parameters.
use s3nitor.Prelude.{String, str_append, str_eq, Option, none, some, [], ◌∷◌, leb, if◌then◌else◌}
use s3nitor.Scanner.{Finding, GoError, failure}
use s3nitor.Fallible.{Try, ok, err}
use s3nitor.Pipeline.Flush.{Reporter}
use s3nitor.Reporters.{Request, Reply, no_answer, answer, anonymous, Texts}

pub record JsonReporter : Type 0 where
  pub output_file : String

-- Printing a line, and appending one to a file that is opened for it.
pub record Files (S : Type 0) : Type 0 where
  pub print : String → S → Option GoError × S
  pub append : String → String → S → Option GoError × S

unfoldable json_report :
    {S : Type 0} → Texts → Files S → JsonReporter → Finding → S → Option GoError × S
json_report texts files r f s = elim (texts.marshal f) [
  | err e ↦ (some e, s)
  | ok line ↦
      if str_eq r.output_file "" then files.print line s else files.append r.output_file line s
]

unfoldable pub json : {S : Type 0} → Texts → Files S → JsonReporter → Reporter S
unfolding json_report
json texts files r = record { report = json_report texts files r; report_batch = none }

pub record LokiReporter : Type 0 where
  pub url : String

unfoldable new_loki_reporter : String → Try LokiReporter
new_loki_reporter url =
    if str_eq url ""
    then err (failure (str_append "invalid loki config: url=" url))
    else ok (record { url = url })

unfoldable loki_request : LokiReporter → String → Request
loki_request r payload = record {
  method = "POST";
  url = str_append r.url "/loki/api/v1/push";
  content_type = "application/json";
  authorization = anonymous;
  lines = payload ∷ [];
}

unfoldable read_push : Reply → Option GoError
read_push (no_answer e) = some e
read_push (answer code status b) =
    if leb 300 code then some (failure (str_append "loki: " status)) else none

unfoldable loki_report :
    {S : Type 0}
    → Texts
    → (Request → S → Reply × S)
    → LokiReporter
    → Finding
    → S
    → Option GoError × S
unfolding loki_request read_push
loki_report texts serve r f s = elim (texts.marshal f) [
  | err e ↦ (some e, s)
  | ok line ↦ elim (texts.stream f.scanner f.severity f.scanned_at line) [
    | err e ↦ (some e, s)
    | ok payload ↦ let (reply, s') = serve (loki_request r payload) s in (read_push reply, s')
  ]
]

unfoldable pub loki : {S : Type 0} → Texts → (Request → S → Reply × S) → LokiReporter → Reporter S
unfolding loki_report
loki texts serve r = record { report = loki_report texts serve r; report_batch = none }
