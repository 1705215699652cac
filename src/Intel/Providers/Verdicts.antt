-- ===== src/Intel/Providers/Verdicts.antt =====
-- virustotal.go and otx.go: the verdicts of the providers on a file that they know.
use s3nitor.Prelude.{ℕ, ◌≡◌, refl, str_eq, Bool, true, false, not, List, arith, if◌then◌else◌}
use s3nitor.Prelude.Int.{ℤ, pos, ltb_ℤ, leb_ℤ, ◌<ℤ◌}
use s3nitor.Scanner.{Result, Severity, severity_info, severity_low, severity_medium, severity_high}
use s3nitor.Fallible.{Try, ok}
use s3nitor.Intel.{parsed}
use s3nitor.Intel.Providers.{
  Stats, Virustotal, virustotal_severity, virustotal_result, virustotal_parse,
}

-- A severity by the answers to three questions.
abbrev graded : Bool → Bool → Bool → Severity
graded h m l =
    if h
    then severity_high
    else (if m then severity_medium else (if l then severity_low else severity_info))

graded_is_info :
    (h m l : Bool)
    → (h ≡ true → l ≡ true)
    → (m ≡ true → l ≡ true)
    → str_eq (graded h m l) severity_info ≡ not l
graded_is_info true m l p q = rw (p refl) refl
graded_is_info false true l p q = rw (q refl) refl
graded_is_info false false true p q = refl
graded_is_info false false false p q = refl

above_pos : (a b : ℤ) → pos 0 <ℤ a → leb_ℤ a b ≡ true → ltb_ℤ (pos 0) b ≡ true
above_pos a b h k = ground arith

-- A file that VirusTotal knows gets a verdict: it matches exactly if an engine calls it malicious, and is
-- graded `info` exactly if it does not match, where both thresholds are positive.
virustotal_match_is_graded :
    (unmarshal : List ℕ → Try Stats) (v : Virustotal) (body : List ℕ) (st : Stats)
    → unmarshal body ≡ ok st
    → pos 0 <ℤ v.medium_threshold
    → pos 0 <ℤ v.high_threshold
    → (res : Result) × (virustotal_parse unmarshal v body ≡ parsed res)
      × (res.is_match ≡ ltb_ℤ (pos 0) st.malicious)
      × (str_eq res.severity severity_info ≡ not res.is_match)
unfolding virustotal_parse virustotal_result virustotal_severity
virustotal_match_is_graded unmarshal v body st read medium high = (
  virustotal_result v st,
  rw (read, virustotal_parse) refl,
  refl,
  graded_is_info (leb_ℤ v.high_threshold st.malicious) (leb_ℤ v.medium_threshold st.malicious)
      (ltb_ℤ (pos 0) st.malicious) (above_pos v.high_threshold st.malicious high)
      (above_pos v.medium_threshold st.malicious medium),
)
