-- ===== src/Scanner.antt =====
-- internal/scanner/types.go and internal/scanner/scanner.go: the vocabulary that every scanner
-- shares, the one constructor of findings, and the deadline of a scan.
-- A time is a count of nanoseconds from the zero `time.Time`, and a duration one of nanoseconds.
pub mod Verdict
pub mod Ioc
pub mod Yara
use s3nitor.Prelude.{
  ℕ, String, str_append, str_eq, Bool, false, Option, none, some, List, [], ◌∷◌, if◌then◌else◌,
}
use s3nitor.Prelude.Int.{ℤ, pos, ◌+ℤ◌, ltb_ℤ}
use s3nitor.Prelude.Text.{nul}

abbrev pub Time : Type 0
Time = ℤ

abbrev pub Duration : Type 0
Duration = ℤ

-- `time.Time{}`.
abbrev pub zero_time : Time
zero_time = pos 0

abbrev pub Severity : Type 0
Severity = String

abbrev pub severity_info : Severity
severity_info = "info"

abbrev pub severity_low : Severity
severity_low = "low"

abbrev pub severity_medium : Severity
severity_medium = "medium"

abbrev pub severity_high : Severity
severity_high = "high"

abbrev pub severity_critical : Severity
severity_critical = "critical"

-- A float64 by its bit pattern: what its operations do is a parameter where it matters.
pub record Float64 : Type 0 where
  pub bits : ℕ

-- The values that the code puts into a `map[string]any`.
pub data Value : Type 0 where
  bool : Bool → Value
  int : ℤ → Value
  float : Float64 → Value
  text : String → Value
  texts : List String → Value

abbrev pub Detail : Type 0
Detail = List (String × Value)

abbrev pub Hashes : Type 0
Hashes = List (String × String)

-- Reading a missing key of a `map[string]string` gives the empty text.
unfoldable pub hash_of : String → Hashes → String
hash_of k [] = ""
hash_of k ((j, v) ∷ m) = if str_eq j k then v else hash_of k m

pub record ScanInput : Type 0 where
  pub file_id : String
  pub bucket : String
  pub key : String
  pub version : String
  pub size : ℤ
  pub hashes : Hashes
  pub local_path : String

pub record Result : Type 0 where
  pub is_match : Bool
  pub severity : Severity
  pub detail : Detail

-- `Result{}`.
abbrev pub empty_result : Result
empty_result = record { is_match = false; severity = ""; detail = [] }

pub data Mode : Type 0 where
  mode_sync mode_async : Mode

unfoldable mode_string : Mode → String
mode_string mode_async = "async"
mode_string mode_sync = "sync"

pub record PendingError : Type 0 where
  pub token : String
  pub retry_after : Duration

-- `wrapped` is an error made by `fmt.Errorf` with a text before a final `%w`.
pub data GoError : Type 0 where
  failure : String → GoError
  pending : PendingError → GoError
  wrapped : String → GoError → GoError

unfoldable pub message : GoError → String
message (failure s) = s
message (pending e) = str_append "scan pending, resume token " e.token
message (wrapped s e) = str_append s (message e)

-- `errors.As` unwraps until an error of the type is met.
unfoldable pub as_pending : GoError → Option PendingError
as_pending (failure s) = none
as_pending (pending e) = some e
as_pending (wrapped s e) = as_pending e

pub record Context : Type 0 where
  pub deadline : Option Time
  pub cancelled : Bool

-- What a scanner answers to a call is a parameter: `scan` reads files and asks other services.
pub record Scanner : Type 0 where
  pub name : String
  pub enabled : Bool
  pub needs_payload : Bool
  pub rules_version : String
  pub mode : Mode
  pub timeout : Duration
  pub scan : Context → ScanInput → Result × Option GoError

pub record SyncScanner : Type 0 where
  pub scan_timeout : Duration

unfoldable sync_mode : SyncScanner → Mode
sync_mode s = mode_sync

unfoldable sync_timeout : SyncScanner → Duration
sync_timeout s = s.scan_timeout

pub record Finding : Type 0 where
  pub file_id : String
  pub bucket : String
  pub key : String
  pub version : String
  pub size : ℤ
  pub hashes : Hashes
  pub scanner : String
  pub rules_version : String
  pub is_match : Bool
  pub severity : Severity
  pub detail : Detail
  pub scanned_at : Time
  pub error : String

with_error : Option GoError → Finding → Finding
unfolding message
with_error none f = f
with_error (some e) f = record f { error = message e; severity = severity_info }

with_severity : Finding → Finding
with_severity f = if str_eq f.severity "" then record f { severity = severity_info } else f

-- The last argument is the clock's reading, `time.Now().UTC()`.
unfoldable pub new_finding_for :
    ScanInput → String → String → Result → Option GoError → Time → Finding
unfolding with_error with_severity
new_finding_for i name rules_version res scan_err now = with_severity (
    with_error scan_err (record {
      file_id = i.file_id;
      bucket = i.bucket;
      key = i.key;
      version = i.version;
      size = i.size;
      hashes = i.hashes;
      scanner = name;
      rules_version = rules_version;
      is_match = res.is_match;
      severity = res.severity;
      detail = res.detail;
      scanned_at = now;
      error = "";
    }))

unfoldable pub new_finding : ScanInput → Scanner → Result → Option GoError → Time → Finding
unfolding new_finding_for
new_finding i s res scan_err now = new_finding_for i s.name s.rules_version res scan_err now

-- The text that `DocID` digests.
unfoldable pub doc_text : Finding → String
doc_text f =
    str_append f.file_id (str_append nul (str_append f.scanner (str_append nul f.rules_version)))

-- SHA-256 in hexadecimal is a parameter.
unfoldable pub doc_id : (String → String) → Finding → String
unfolding doc_text
doc_id sha256_hex f = sha256_hex (doc_text f)

-- `context.WithTimeout` at time `now`: an earlier deadline of the parent stays.
with_timeout : Time → Context → Duration → Context
with_timeout now ctx d = elim ctx.deadline [
  | none ↦ record ctx { deadline = some (now +ℤ d) }
  | some t ↦ record ctx { deadline = some (if ltb_ℤ t (now +ℤ d) then t else now +ℤ d) }
]

unfoldable pub scan_context : Time → Context → Scanner → Context
unfolding with_timeout
scan_context now ctx s = if ltb_ℤ (pos 0) s.timeout then with_timeout now ctx s.timeout else ctx

unfoldable pub run_scan : Time → Context → Scanner → ScanInput → Result × Option GoError
unfolding scan_context
run_scan now ctx s i = s.scan (scan_context now ctx s) i

-- The clock is read once more when the scan has ended.
unfoldable pub scan_one : Time → Time → Context → Scanner → ScanInput → Finding
unfolding run_scan new_finding
scan_one started ended ctx s i =
    let (res, err) = run_scan started ctx s i in new_finding i s res err ended

pub record Engine : Type 0 where
  pub scanners : List Scanner

unfoldable new_engine_with : List Scanner → Engine
new_engine_with ss = record { scanners = ss }
