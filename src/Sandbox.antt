-- ===== src/Sandbox.antt =====
-- internal/sandbox/sandbox.go: a scanner that hands files to an analysis service and collects the
-- verdicts later. The service, files, JSON and the order of floats are parameters; a backend is the
-- record of what cape.go and cuckoo.go implement (Sandbox.Cape, Sandbox.Cuckoo).
pub mod Http
pub mod Cape
pub mod Cuckoo
pub mod Grades
pub mod Polls
use s3nitor.Prelude.{
  ℕ, String, str_append, str_eq, Bool, true, false, ◌&&◌, Option, none, some, List, [], ◌∷◌, ◌==◌,
  if◌then◌else◌,
}
use Prim.Native.Char.{code}
use s3nitor.Prelude.Int.{ℤ, pos, ltb_ℤ}
use s3nitor.Scanner.{
  Float64, Duration, Severity, severity_info, severity_low, severity_medium, severity_high,
  severity_critical, Detail, bool, int, float, text, Result, empty_result, ScanInput, GoError,
  failure, Scanner, pending, wrapped, Mode, mode_async,
}
use s3nitor.Config.{Config}
use s3nitor.Fallible.{Try, ok, err}
use s3nitor.Reporters.{trim_slashes}
use s3nitor.Intel.{set_detail}
use s3nitor.Async.Worker.{PollResult, poll_failed, not_done, verdict, Collector}

pub record Backend : Type 0 where
  pub name : String
  pub submit : String → String → List ℕ → Try String
  pub status : String → String → Try (String × Bool)
  pub report : String → String → Try (Float64 × Detail)

-- The comparisons `>=` and `==` of float64, and zero.
pub record Floats : Type 0 where
  pub zero : Float64
  pub ge : Float64 → Float64 → Bool
  pub eq : Float64 → Float64 → Bool

-- `a > b`, for numbers that are ordered.
unfoldable pub gt : Floats → Float64 → Float64 → Bool
gt fl a b = fl.ge a b && (if fl.eq a b then false else true)

pub record Sandbox : Type 0 where
  pub backend : Backend
  pub base : String
  pub enabled : Bool
  pub max_size : ℤ
  pub poll_after : Duration
  pub severity_medium_at : Float64
  pub severity_high_at : Float64
  pub severity_critical_at : Float64

-- `cuckoo` and `cape` are the backends with the configured token, and `tokenless` is `&cuckoo{}`.
unfoldable pub new : Config → Backend → Backend → Backend → Sandbox
new cfg cuckoo cape tokenless =
    let is_cuckoo = str_eq cfg.sandbox_kind "cuckoo" in
    let is_cape = str_eq cfg.sandbox_kind "cape" in
    let known = if is_cuckoo then true else is_cape in
    record {
      backend = if is_cuckoo then cuckoo else (if is_cape then cape else tokenless);
      base = cfg.sandbox_url;
      enabled = cfg.enable_sandbox && known && (if str_eq cfg.sandbox_url "" then false else true);
      max_size = cfg.sandbox_max_object_size;
      poll_after = cfg.async_poll_interval;
      severity_medium_at = cfg.sandbox_severity_medium;
      severity_high_at = cfg.sandbox_severity_high;
      severity_critical_at = cfg.sandbox_severity_critical;
    }

unfoldable pub mode : Sandbox → Mode
mode s = mode_async

unfoldable pub needs_payload : Sandbox → Bool
needs_payload s = true

unfoldable pub timeout : Sandbox → Duration
timeout s = pos 0

unfoldable has_slash : String → Bool
has_slash String.[] = false
has_slash (String.◌∷◌ c s) = if code c == b'/' then true else has_slash s

unfoldable last_part : String → String
unfolding has_slash
last_part String.[] = ""
last_part (String.◌∷◌ c s) =
    let rest = last_part s in
    if has_slash s then rest else (if code c == b'/' then s else String.◌∷◌ c s)

-- `filepath.Base`.
unfoldable pub base_name : String → String
unfolding last_part trim_slashes
base_name path =
    if str_eq path ""
    then "."
    else (let part = last_part (trim_slashes path) in if str_eq part "" then "/" else part)

unfoldable pub too_large : Sandbox → ScanInput → Result
too_large s i = record {
  is_match = false;
  severity = severity_info;
  detail =
      ("submitted", bool false)
      ∷ ("reason", text "exceeds_sandbox_max_object_size")
      ∷ ("size", int i.size)
      ∷ ("max_size", int s.max_size)
      ∷ ("analysed", bool false)
      ∷ ("backend", text s.backend.name)
      ∷ [];
}

-- What `os.Open` gives is the file's bytes.
unfoldable pub scan : Sandbox → (String → Try (List ℕ)) → ScanInput → Result × Option GoError
unfolding too_large base_name
scan s open_file i =
    if str_eq i.local_path ""
    then (empty_result, some (failure (str_append "sandbox: no payload for " i.key)))
    else (if ltb_ℤ (pos 0) s.max_size && ltb_ℤ s.max_size i.size
        then (too_large s i, none)
        else (elim (open_file i.local_path) [
          | err e ↦ (empty_result, some (wrapped "sandbox: opening payload: " e))
          | ok bytes ↦ elim (s.backend.submit s.base (base_name i.key) bytes) [
            | err e ↦ (
              empty_result,
              some (wrapped (str_append "sandbox: submit " (str_append i.key ": ")) e),
            )
            | ok token ↦ (
              empty_result,
              some (pending (record { token = token; retry_after = s.poll_after })),
            )
          ]
        ]))

module _ (fl : Floats) (s : Sandbox) where
  unfoldable pub severity : Float64 → Severity
  unfolding gt
  severity score =
      if fl.ge score s.severity_critical_at
      then severity_critical
      else (if fl.ge score s.severity_high_at
          then severity_high
          else (if fl.ge score s.severity_medium_at
              then severity_medium
              else (if gt fl score fl.zero then severity_low else severity_info)))

  unfoldable pub grade : Float64 → Detail → Result
  unfolding severity set_detail
  grade score detail = record {
    is_match = fl.ge score s.severity_medium_at;
    severity = severity score;
    detail = set_detail "score" (float score) detail;
  }

  analysed : String → String → Detail → Detail
  unfolding set_detail
  analysed token state detail = set_detail "analysed" (bool true) (
      set_detail "state" (text state)
        (set_detail "task_id" (text token) (set_detail "backend" (text s.backend.name) detail)))

  unfoldable pub poll : String → PollResult
  unfolding grade analysed
  poll token = elim (s.backend.status s.base token) [
    | err e ↦ poll_failed e
    | ok (state, is_done) ↦
        if is_done
        then (elim (s.backend.report s.base token) [
          | err e ↦ poll_failed e
          | ok (score, detail) ↦ verdict (grade score (analysed token state detail))
        ])
        else not_done
  ]

  unfoldable pub collector : Collector
  unfolding poll
  collector = record { name = s.backend.name; poll = poll }

-- The scanner that the pipeline sees.
unfoldable pub scanner_of : Sandbox → (String → Try (List ℕ)) → Scanner
unfolding mode needs_payload timeout scan
scanner_of s open_file = record {
  name = s.backend.name;
  enabled = s.enabled;
  needs_payload = needs_payload s;
  rules_version = s.backend.name;
  mode = mode s;
  timeout = timeout s;
  scan = λ ctx i. scan s open_file i;
}
