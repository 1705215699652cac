-- ===== src/Scanner/Yara.antt =====
-- internal/scanner/yara_scanner.go: the verdict that the output of the yara program gives. The program,
-- the rule files and SHA-256 are parameters.
pub mod Matches
use s3nitor.Prelude.{
  ℕ, String, str_append, str_eq, Bool, true, false, Option, none, some, List, [], ◌∷◌, ◌++◌, map,
  length, take, ltb, ◌==◌, if◌then◌else◌,
}
use s3nitor.Prelude.Int.{pos}
use s3nitor.Scanner.{
  ScanInput, Result, empty_result, GoError, failure, wrapped, int, texts, severity_info,
  severity_medium,
}
use s3nitor.Fallible.{Try, ok, err}
use s3nitor.Bytes.{trim_space, split, fields}
use s3nitor.Scanner.Ioc.{sort_strings}
use s3nitor.Config.{Config}

pub record YaraScanner : Type 0 where
  pub enabled : Bool
  pub path : String
  pub yara_cmd : String
  pub version : String

-- How a run of the program ends: with its output, with an exit code other than 0, or not at all.
pub data Ran : Type 0 where
  output : List ℕ → Ran
  exited : ℕ → Ran
  not_run : GoError → Ran

-- The first word of a line is the name of the rule that fired.
unfoldable pub first_words : List (List ℕ) → List (List ℕ)
first_words [] = []
first_words (line ∷ lines) =
    let rest = first_words lines in
    elim (fields (trim_space line)) [ [] ↦ rest | word ∷ words ↦ word ∷ rest ]

-- Every end but an output is passed over; all but the exit code 1 are logged.
unfoldable pub fired : Ran → List (List ℕ)
unfolding first_words
fired (output out) = first_words (split b'\n' (trim_space out))
fired (exited code) = []
fired (not_run e) = []

unfoldable pub matches : (String → Ran) → List String → List (List ℕ)
unfolding fired
matches run [] = []
matches run (file ∷ files) = fired (run file) ++ matches run files

unfoldable pub yara_result : List String → ℕ → Result
yara_result found files =
    let is_match = ltb 0 (length found) in
    record {
      is_match = is_match;
      severity = if is_match then severity_medium else severity_info;
      detail = ("rules", texts found) ∷ ("rule_files", int (pos files)) ∷ [];
    }

-- `glob` is what the pattern of the rules directory gives, and `text` makes a text of bytes.
unfoldable pub yara_scan :
    (List ℕ → String)
    → YaraScanner
    → Try (List String)
    → (String → Ran)
    → ScanInput
    → Result × Option GoError
unfolding matches sort_strings yara_result
yara_scan text y glob run i =
    if str_eq i.local_path ""
    then (empty_result, some (failure "yara: needs the payload but LocalPath is empty"))
    else (elim glob [
      | err e ↦ (empty_result, some (wrapped "yara: listing rules: " e))
      | ok [] ↦ (empty_result, some (failure (str_append "yara: no rule files in " y.path)))
      | ok (file ∷ files) ↦ (
        yara_result (sort_strings (map text (matches run (file ∷ files)))) (length (file ∷ files)),
        none,
      )
    ])

-- What is digested of the rule files: for each that can be read, its name and its bytes.
unfoldable fingerprinted : (String → Try (List ℕ)) → (String → List ℕ) → List String → List ℕ
fingerprinted read base [] = []
fingerprinted read base (file ∷ files) =
    let rest = fingerprinted read base files in
    elim (read file) [ ok b ↦ base file ++ b ++ rest | err e ↦ rest ]

unfoldable yara_version :
    (List ℕ → List ℕ)
    → (List ℕ → String)
    → (String → Try (List ℕ))
    → (String → List ℕ)
    → List String
    → String
unfolding fingerprinted sort_strings
yara_version sha256_hex text read base files =
    text (take 12 (sha256_hex (fingerprinted read base (sort_strings files))))

-- `found` tells whether the program is in the path.
unfoldable new_yara_scanner :
    Config → Bool → (String → Try (List String)) → (List String → String) → YaraScanner
new_yara_scanner cfg found glob version =
    let path = if str_eq cfg.yara_path "" then "rules/yara/" else cfg.yara_path in
    let off : YaraScanner = record {
      enabled = false;
      path = path;
      yara_cmd = cfg.yara_cmd;
      version = "";
    } in
    if cfg.enable_yara
    then (if found
        then (elim (glob path) [
          | err e ↦ off
          | ok [] ↦ off
          | ok (file ∷ files) ↦ record off { enabled = true; version = version (file ∷ files) }
        ])
        else off)
    else off
