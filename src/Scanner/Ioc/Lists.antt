-- ===== src/Scanner/Ioc/Lists.antt =====
-- internal/scanner/ioc_scanner.go: the lists of known hashes, from their files, and their fingerprint.
-- SHA-256 is a parameter, and `text` makes a text of bytes.
use s3nitor.Prelude.{
  ℕ, ◌^◌, String, str_append, str_eq, Bool, true, false, List, [], ◌∷◌, ◌++◌, take, length, any,
  leb, ◌==◌, if◌then◌else◌,
}
use s3nitor.Fallible.{Try, ok, err}
use s3nitor.Bytes.{trim_space, lower, split}
use s3nitor.Scanner.Ioc.{KnownHashes, sort_strings}
use s3nitor.Config.{Config}

pub record IocScanner : Type 0 where
  pub sets : List KnownHashes
  pub enabled : Bool
  pub path : String
  pub version : String

-- The lines that a bufio.Scanner gives: it stops at a line that its buffer of 64 KiB cannot hold, and
-- gives no empty line behind the last line feed.
unfoldable pub scanned : List (List ℕ) → List (List ℕ)
scanned [] = []
scanned (line ∷ lines) =
    let rest = scanned lines in if leb (2 ^ 16) (length line) then [] else line ∷ rest

unfoldable is_comment : List ℕ → Bool
is_comment [] = true
is_comment (c ∷ s) = c == b'#'

unfoldable add : String → List String → List String
add h set = if any (str_eq h) set then set else h ∷ set

-- The loop of loadFile. A line is a blank one or a comment, or an entry in small letters.
unfoldable load_lines : (List ℕ → String) → List (List ℕ) → List String → List String
unfolding is_comment add
load_lines text [] set = set
load_lines text (raw ∷ lines) set =
    let line = lower (trim_space raw) in
    load_lines text lines (if is_comment line then set else add (text line) set)

-- A file that cannot be opened is passed over.
unfoldable load_file : (List ℕ → String) → Try (List ℕ) → List String → List String
unfolding load_lines scanned
load_file text (err e) set = set
load_file text (ok b) set = load_lines text (scanned (split b'\n' b)) set

unfoldable pub join : List String → String
join [] = ""
join (s ∷ []) = s
join (s ∷ t ∷ ts) = str_append s (str_append "\n" (join (t ∷ ts)))

-- `all` are the keys of the three sets in the order in which they are ranged over.
unfoldable compute_version : (String → List ℕ) → (List ℕ → String) → List String → String
unfolding sort_strings join
compute_version sha256_hex text all = text (take 12 (sha256_hex (join (sort_strings all))))

-- `path_join` is filepath.Join.
unfoldable new_ioc_scanner :
    (String → List ℕ)
    → (List ℕ → String)
    → (String → String → String)
    → (String → Try (List ℕ))
    → Config
    → IocScanner
unfolding load_file compute_version
new_ioc_scanner sha256_hex text path_join read cfg =
    let path = if str_eq cfg.ioc_path "" then "rules/ioc/" else cfg.ioc_path in
    let md5 = load_file text (read (path_join path "md5.txt")) [] in
    let sha1 = load_file text (read (path_join path "sha1.txt")) [] in
    let sha256 = load_file text (read (path_join path "sha256.txt")) [] in
    if cfg.enable_ioc
    then record {
      sets = ("md5", md5) ∷ ("sha1", sha1) ∷ ("sha256", sha256) ∷ [];
      enabled = true;
      path = path;
      version = compute_version sha256_hex text (md5 ++ sha1 ++ sha256);
    }
    else record {
      sets = ("md5", []) ∷ ("sha1", []) ∷ ("sha256", []) ∷ [];
      enabled = false;
      path = cfg.ioc_path;
      version = "";
    }
