-- ===== src/Scanner/Verdict.antt =====
-- What a published finding says of the scan behind it (internal/scanner/types.go).
use s3nitor.Prelude.{
  ◌≡◌, ◌≢◌, ◌⊎◌, inl, inr, sym, ◌∙◌, Bool-cases, String, str_eq, eq_iff, Option, none, some, arith,
  if◌then◌else◌,
}
use mathlib.Core.Bool.{false≢true}
use s3nitor.Prelude.Int.{pos, ◌+ℤ◌, ◌≤ℤ◌, ◌<ℤ◌, ltb_ℤ}
use s3nitor.Prelude.Text.{NulFree, joined_inj}
use s3nitor.Scanner.{
  Time, Context, Scanner, ScanInput, Result, GoError, Severity, Finding, severity_info, message,
  new_finding_for, doc_text, doc_id, scan_context, run_scan, scan_one,
}

-- The text in a finding's error field.
abbrev error_text : Option GoError → String
error_text none = ""
error_text (some x) = message x

-- The grade of a finding: a scan that failed, or gave no grade, is informational.
abbrev pub grade : Option GoError → Severity → Severity
grade none s = if str_eq s "" then severity_info else s
grade (some x) s = severity_info

pub record Reports (i : ScanInput) (name rules : String) (res : Result) (e : Option GoError)
    (f : Finding) : Type 0 where
  pub same_object : (f.file_id ≡ i.file_id) × (f.bucket ≡ i.bucket) × (f.key ≡ i.key)
  pub same_version : (f.version ≡ i.version) × (f.size ≡ i.size) × (f.hashes ≡ i.hashes)
  pub same_scanner : (f.scanner ≡ name) × (f.rules_version ≡ rules)
  pub same_verdict : (f.is_match ≡ res.is_match) × (f.detail ≡ res.detail)
  pub same_error : f.error ≡ error_text e
  pub graded : f.severity ≡ grade e res.severity
  pub never_blank : f.severity ≢ ""

pub new_finding_for-Reports :
    (i : ScanInput) (name rules : String) (res : Result) (e : Option GoError) (now : Time)
    → Reports i name rules res e (new_finding_for i name rules res e now)
unfolding new_finding_for
new_finding_for-Reports i name rules res none now =
    ground (arith, eq_iff res.severity "", eq_iff severity_info "")
new_finding_for-Reports i name rules res (some x) now = ground (arith, eq_iff severity_info "")

-- The document of a scan run by ScanOne identifies the object and the scanner, carries the match
-- and the detail that Scan returned under the scan's own deadline, holds the text of the error that
-- Scan returned (none: the empty text), is graded `info` after an error or an empty grade and as
-- Scan graded it otherwise, and never has an empty severity.
scan_one-Reports :
    (started ended : Time) (ctx : Context) (s : Scanner) (i : ScanInput)
    → let (res, e) = s.scan (scan_context started ctx s) i in
      Reports i s.name s.rules_version res e (scan_one started ended ctx s i)
unfolding scan_one run_scan
scan_one-Reports started ended ctx s i =
    let (res, e) = s.scan (scan_context started ctx s) i in
    new_finding_for-Reports i s.name s.rules_version res e ended

-- What `DocID` tells apart.
pub record SameVerdictKey (f g : Finding) : Type 0 where
  pub same_file : f.file_id ≡ g.file_id
  pub same_scanner : f.scanner ≡ g.scanner
  pub same_rules : f.rules_version ≡ g.rules_version

same_key :
    (f g : Finding)
    → NulFree f.file_id
    → NulFree g.file_id
    → NulFree f.scanner
    → NulFree g.scanner
    → doc_text f ≡ doc_text g
    → SameVerdictKey f g
unfolding doc_text
same_key f g hf hg sf sg e =
    let (file, rest) = joined_inj f.file_id g.file_id _ _ hf hg e in
    let (name, rules) = joined_inj f.scanner g.scanner _ _ sf sg rest in
    record { same_file = file; same_scanner = name; same_rules = rules }

-- Two findings with one document id are verdicts of one scanner and ruleset on one object version,
-- or their texts are two different texts with one SHA-256; file ids and scanner names hold no NUL.
pub doc_id_inj :
    (sha256_hex : String → String) (f g : Finding)
    → NulFree f.file_id
    → NulFree g.file_id
    → NulFree f.scanner
    → NulFree g.scanner
    → doc_id sha256_hex f ≡ doc_id sha256_hex g
    → SameVerdictKey f g
      ⊎ ((doc_text f ≢ doc_text g) × (sha256_hex (doc_text f) ≡ sha256_hex (doc_text g)))
unfolding doc_id
doc_id_inj sha256_hex f g hf hg sf sg e = elim (Bool-cases (str_eq (doc_text f) (doc_text g))) [
  | inl same ↦ inl (same_key f g hf hg sf sg ((eq_iff (doc_text f) (doc_text g)).0 same))
  | inr other ↦ inr ((λ p. false≢true (sym other ∙ (eq_iff (doc_text f) (doc_text g)).1 p)), e)
]

-- A scan's deadline is never later than the run's own, nor, for a scanner with a timeout, later than
-- that timeout from now; a run that is cancelled is seen as cancelled.
scan_context_tightens :
    (now t : Time) (ctx : Context) (s : Scanner)
    → ctx.deadline ≡ some t
    → pos 0 <ℤ s.timeout
    → (u : Time) × ((scan_context now ctx s).deadline ≡ some u)
      × (u ≤ℤ t)
      × (u ≤ℤ now +ℤ s.timeout)
      × ((scan_context now ctx s).cancelled ≡ ctx.cancelled)
unfolding scan_context
scan_context_tightens now t ctx s d p = (
  if ltb_ℤ t (now +ℤ s.timeout) then t else now +ℤ s.timeout,
  ground arith,
  ground arith,
  ground arith,
  ground arith,
)
