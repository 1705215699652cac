-- ===== src/Scanner/Ioc.antt =====
-- internal/scanner/ioc_scanner.go: the verdict of the scanner that looks an object's hashes up.
pub mod Lists
pub mod Matches
use Prim.Native.String.{compare}
use Prim.Native.Nat.{Ordering}
use s3nitor.Prelude.{
  String, str_eq, Bool, not, ◌&&◌, ◌≡◌, refl, ap, ◌∙◌, Bool-cases, inl, inr, Option, none, some,
  List, [], ◌∷◌, any, length, ltb, suc, arith, if◌then◌else◌,
}
use s3nitor.Scanner.{
  Hashes, hash_of, ScanInput, Result, empty_result, GoError, failure, texts, severity_info,
  severity_high,
}

-- A list of known hashes with the algorithm that they are of.
abbrev pub KnownHashes : Type 0
KnownHashes = String × List String

-- `h != "" && set[h]`.
unfoldable pub is_hit : Hashes → KnownHashes → Bool
is_hit hashes (algo, set) = let h = hash_of algo hashes in not (str_eq h "") && any (str_eq h) set

unfoldable matched_on : Hashes → List KnownHashes → List String
unfolding is_hit
matched_on hashes [] = []
matched_on hashes ((algo, set) ∷ sets) =
    let rest = matched_on hashes sets in if is_hit hashes (algo, set) then algo ∷ rest else rest

-- `sort.Strings`.
unfoldable insert : String → List String → List String
insert s [] = s ∷ []
insert s (t ∷ ts) =
    let rest = insert s ts in elim (compare s t) [ Ordering.gt ↦ t ∷ rest | _ ↦ s ∷ t ∷ ts ]

unfoldable pub sort_strings : List String → List String
unfolding insert
sort_strings [] = []
sort_strings (s ∷ ss) = insert s (sort_strings ss)

-- `sets` are the three lists in the order in which the map is ranged over, which Go leaves open.
unfoldable pub ioc_scan : List KnownHashes → ScanInput → Result × Option GoError
unfolding matched_on sort_strings
ioc_scan sets i = elim i.hashes [
  | [] ↦ (empty_result, some (failure "ioc: no hashes in ScanInput"))
  | h ∷ hs ↦
      let matched = sort_strings (matched_on (h ∷ hs) sets) in
      let is_match = ltb 0 (length matched) in
      (
        record {
          is_match = is_match;
          severity = if is_match then severity_high else severity_info;
          detail = ("matched_on", texts matched) ∷ [];
        },
        none,
      )
]

length-insert : (s : String) (ts : List String) → length (insert s ts) ≡ suc (length ts)
unfolding insert
length-insert s [] = refl
length-insert s (t ∷ ts) = ground (arith, length-insert s ts)

pub length-sort : (ss : List String) → length (sort_strings ss) ≡ length ss
unfolding sort_strings
length-sort [] = refl
length-sort (s ∷ ss) = length-insert s (sort_strings ss) ∙ ap suc (length-sort ss)

any_matched :
    (hashes : Hashes) (sets : List KnownHashes)
    → ltb 0 (length (matched_on hashes sets)) ≡ any (is_hit hashes) sets
unfolding matched_on
any_matched hashes [] = refl
any_matched hashes ((algo, set) ∷ sets) = elim (Bool-cases (is_hit hashes (algo, set))) [
  | inl hit ↦ rw hit (ground arith)
  | inr miss ↦ rw miss (any_matched hashes sets)
]

-- The verdict on an object with hashes is that of the tests of the lists.
pub ioc_scan_hits :
    (sets : List KnownHashes) (i : ScanInput) (h : String × String) (hs : Hashes)
    → i.hashes ≡ h ∷ hs
    → let (res, e) = ioc_scan sets i in
      (e ≡ none)
      × (res.is_match ≡ any (is_hit i.hashes) sets)
      × (res.severity ≡ (if any (is_hit i.hashes) sets then severity_high else severity_info))
unfolding ioc_scan
ioc_scan_hits sets i h hs e =
    let m = ap (ltb 0) (length-sort (matched_on (h ∷ hs) sets)) ∙ any_matched (h ∷ hs) sets in
    rw (e, ioc_scan, m) (refl, refl, refl)
