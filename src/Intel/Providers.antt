-- ===== src/Intel/Providers.antt =====
-- internal/intel/virustotal.go and otx.go: the two providers, and the lookups that are built of them.
-- The client and json.Unmarshal are parameters.
pub mod Verdicts
use s3nitor.Prelude.{
  ℕ, String, str_append, str_eq, Bool, true, false, not, ◌&&◌, List, [], ◌∷◌, if◌then◌else◌,
}
use s3nitor.Prelude.Int.{ℤ, pos, ◌+ℤ◌, ltb_ℤ, leb_ℤ, wrap64}
use s3nitor.Scanner.{
  Result, Severity, severity_info, severity_low, severity_medium, severity_high, bool, int, text,
}
use s3nitor.Fallible.{Try, ok, err}
use s3nitor.Config.{Config}
use s3nitor.Intel.{Provider, Reply, Parsed, parsed, unparsable, Lookup}

-- A GET request by its URL and one header.
abbrev pub Client : Type 0
Client = String → String → String → Reply

-- The counts of engines, and the type of the file.
pub record Stats : Type 0 where
  pub malicious : ℤ
  pub suspicious : ℤ
  pub harmless : ℤ
  pub undetected : ℤ
  pub type_description : String

pub record Virustotal : Type 0 where
  pub api_key : String
  pub medium_threshold : ℤ
  pub high_threshold : ℤ

unfoldable pub virustotal_severity : Virustotal → ℤ → Severity
virustotal_severity v malicious =
    if leb_ℤ v.high_threshold malicious
    then severity_high
    else (if leb_ℤ v.medium_threshold malicious
        then severity_medium
        else (if ltb_ℤ (pos 0) malicious then severity_low else severity_info))

unfoldable pub virustotal_result : Virustotal → Stats → Result
unfolding virustotal_severity
virustotal_result v st = record {
  is_match = ltb_ℤ (pos 0) st.malicious;
  severity = virustotal_severity v st.malicious;
  detail =
      ("known", bool true)
      ∷ ("malicious", int st.malicious)
      ∷ ("suspicious", int st.suspicious)
      ∷ ("total", int (wrap64 (st.malicious +ℤ st.suspicious +ℤ st.harmless +ℤ st.undetected)))
      ∷ ("file_type", text st.type_description)
      ∷ [];
}

unfoldable pub virustotal_parse : (List ℕ → Try Stats) → Virustotal → List ℕ → Parsed
unfolding virustotal_result
virustotal_parse unmarshal v body = elim (unmarshal body) [
  | err e ↦ unparsable e
  | ok st ↦ parsed (virustotal_result v st)
]

unfoldable virustotal_request : Client → Virustotal → String → Reply
virustotal_request get v sha256 =
    get (str_append "https://www.virustotal.com/api/v3/files/" sha256) "x-apikey" v.api_key

unfoldable virustotal : Client → (List ℕ → Try Stats) → Virustotal → Provider
unfolding virustotal_request virustotal_parse
virustotal get unmarshal v = record {
  name = "virustotal";
  ask = virustotal_request get v;
  parse = virustotal_parse unmarshal v;
}

unfoldable otx_result : ℤ → Result
otx_result count =
    let is_match = ltb_ℤ (pos 0) count in
    record {
      is_match = is_match;
      severity = if is_match then severity_medium else severity_info;
      detail = ("known", bool true) ∷ ("pulse_count", int count) ∷ [];
    }

unfoldable otx_parse : (List ℕ → Try ℤ) → List ℕ → Parsed
unfolding otx_result
otx_parse unmarshal body = elim (unmarshal body) [
  | err e ↦ unparsable e
  | ok count ↦ parsed (otx_result count)
]

unfoldable otx_request : Client → String → String → Reply
otx_request get api_key sha256 =
    get (str_append "https://otx.alienvault.com/api/v1/indicators/file/" sha256) "X-OTX-API-KEY"
      api_key

unfoldable otx : Client → (List ℕ → Try ℤ) → String → Provider
unfolding otx_request otx_parse
otx get unmarshal api_key = record {
  name = "otx";
  ask = otx_request get api_key;
  parse = otx_parse unmarshal;
}

-- The lookup, and whether it is enabled.
unfoldable new_virustotal : Client → (List ℕ → Try Stats) → (ℤ → String) → Config → Lookup × Bool
unfolding virustotal
new_virustotal get unmarshal printed cfg = (
  record {
    provider = virustotal get unmarshal (record {
      api_key = cfg.vt_api_key;
      medium_threshold = cfg.vt_severity_medium;
      high_threshold = cfg.vt_severity_high;
    });
    cache_ttl = cfg.intel_cache_ttl;
    daily_quota = cfg.vt_daily_quota;
    printed = printed;
  },
  cfg.enable_vt && not (str_eq cfg.vt_api_key ""),
)

unfoldable new_otx : Client → (List ℕ → Try ℤ) → (ℤ → String) → Config → Lookup × Bool
unfolding otx
new_otx get unmarshal printed cfg = (
  record {
    provider = otx get unmarshal cfg.otx_api_key;
    cache_ttl = cfg.intel_cache_ttl;
    daily_quota = pos 0;
    printed = printed;
  },
  cfg.enable_otx && not (str_eq cfg.otx_api_key ""),
)
