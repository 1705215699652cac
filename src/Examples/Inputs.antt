-- ===== src/Examples/Inputs.antt =====
-- The theorems on listings, providers and rules at concrete inputs.
use s3nitor.Prelude.{
  ℕ, ◌≡◌, refl, String, str_eq, true, false, none, some, List, [], ◌∷◌, ◌++◌, map, any,
  if◌then◌else◌,
}
use s3nitor.Prelude.Int.{pos}
use s3nitor.Scanner.{severity_info, severity_medium}
use s3nitor.Fallible.{ok}
use s3nitor.Bytes.{codes}
use s3nitor.Pipeline.Discover.{ObjectRef}
use s3nitor.Intel.Providers.{Stats, Virustotal}
use s3nitor.Source.Lister.{Content, S3Fetcher, items}
use s3nitor.Source.Lister.Listings.{good, contents, reference, items_follow_pages}
use s3nitor.Scanner.Yara.{YaraScanner, Ran, output, exited, yara_scan}
use s3nitor.Scanner.Yara.Matches.{has_printed, yara_scan_matches}
use s3nitor.Examples.Data.{input}

abbrev fetcher : S3Fetcher
fetcher = record {
  static_credentials = none;
  region = "us-east-1";
  base_endpoint = none;
  use_path_style = false;
  bucket = "b";
  prefix = "";
}

abbrev entry : String → Content
entry key = record { key = some key; etag = some "e"; last_modified = none; size = pos 1 }

abbrev pages : List (List Content)
pages = (entry "k1" ∷ []) ∷ (entry "k2" ∷ []) ∷ []

items_follow_pages_example :
    (refs : List ObjectRef) × (items fetcher (λ n. true) (good pages) ≡ ok refs)
    × ((rest : List ObjectRef) × (map (reference fetcher) (contents pages) ≡ refs ++ rest))
    × (((m : ℕ) → true ≡ true) → refs ≡ map (reference fetcher) (contents pages))
items_follow_pages_example = items_follow_pages fetcher (λ n. true) pages

abbrev stats : Stats
stats = record {
  malicious = pos 12;
  suspicious = pos 0;
  harmless = pos 50;
  undetected = pos 8;
  type_description = "PE";
}

abbrev provider : Virustotal
provider = record { api_key = "k"; medium_threshold = pos 3; high_threshold = pos 10 }

abbrev yara : YaraScanner
yara = record { enabled = true; path = "rules/yara/"; yara_cmd = "yara"; version = "v" }

abbrev run : String → Ran
run file = if str_eq file "a.yar" then exited 1 else output (codes "Eicar /tmp/id1\n")

yara_scan_matches_example :
    let (res, e) = yara_scan (λ b. "rule") yara (ok ("a.yar" ∷ "b.yar" ∷ [])) run input in
    let printed = any (λ f. has_printed (run f)) ("a.yar" ∷ "b.yar" ∷ []) in
    (e ≡ none)
    × (res.is_match ≡ printed)
    × (res.severity ≡ (if printed then severity_medium else severity_info))
yara_scan_matches_example =
    yara_scan_matches (λ b. "rule") yara "a.yar" ("b.yar" ∷ []) run input refl
