-- ===== src/Scanner/Yara/Matches.antt =====
-- yara_scanner.go: when a scan matches, by what the runs of the program have printed.
use mathlib.Core.List.{reverse, reverse-cons}
use s3nitor.Prelude.{
  ℕ, suc, ◌≡◌, refl, ap, ◌∙◌, inl, inr, String, str_eq, Bool, true, false, not, ◌||◌, Bool-cases,
  none, List, [], ◌∷◌, ◌++◌, map, any, any-append, length, ltb, ◌==◌, arith, if◌then◌else◌,
}
use s3nitor.Scanner.{ScanInput, severity_info, severity_medium}
use s3nitor.Fallible.{ok}
use s3nitor.Bytes.{is_space, trim_left, trim_space, split, split_from, fields, fields_from}
use s3nitor.Scanner.Ioc.{length-sort}
use s3nitor.Scanner.Yara.{
  YaraScanner, Ran, output, exited, not_run, first_words, fired, matches, yara_result, yara_scan,
}

abbrev is_ink : ℕ → Bool
is_ink c = not (is_space c)

-- The run has printed something else than spaces.
abbrev pub has_printed : Ran → Bool
has_printed (output out) = any is_ink out
has_printed (exited code) = false
has_printed (not_run e) = false

abbrev is_filled {ℓ} : {A : Type ℓ} → List A → Bool
is_filled [] = false
is_filled (x ∷ xs) = true

or_false : (b : Bool) → (b || false) ≡ b
or_false true = refl
or_false false = refl

or_comm : (a b : Bool) → (a || b) ≡ (b || a)
or_comm true true = refl
or_comm true false = refl
or_comm false true = refl
or_comm false false = refl

any-reverse : (p : ℕ → Bool) (s : List ℕ) → any p (reverse s) ≡ any p s
any-reverse p [] = refl
any-reverse p (c ∷ s) =
    ap (any p) (reverse-cons c s)
    ∙ any-append p (reverse s) (c ∷ [])
    ∙ ap (λ b. b || (p c || false)) (any-reverse p s)
    ∙ ap (λ b. any p s || b) (or_false (p c))
    ∙ or_comm (any p s) (p c)

trim_left_ink : (s : List ℕ) → any is_ink (trim_left s) ≡ any is_ink s
unfolding trim_left
trim_left_ink [] = refl
trim_left_ink (c ∷ s) = elim (Bool-cases (is_space c)) [
  | inl e ↦ rw (e, trim_left) (trim_left_ink s)
  | inr e ↦ rw (e, trim_left) (rw e refl)
]

trim_space_ink : (s : List ℕ) → any is_ink (trim_space s) ≡ any is_ink s
unfolding trim_space
trim_space_ink s =
    any-reverse is_ink (trim_left (reverse (trim_left s)))
    ∙ trim_left_ink (reverse (trim_left s))
    ∙ any-reverse is_ink (trim_left s)
    ∙ trim_left_ink s

fields_ink : (part s : List ℕ) → is_filled (fields_from part s) ≡ (is_filled part || any is_ink s)
unfolding fields_from
fields_ink [] [] = refl
fields_ink (p ∷ part) [] = refl
fields_ink [] (c ∷ s) = elim (Bool-cases (is_space c)) [
  | inl e ↦ rw (e, fields_from) (fields_ink [] s)
  | inr e ↦ rw (e, fields_from) (fields_ink (c ∷ []) s)
]
fields_ink (p ∷ part) (c ∷ s) = elim (Bool-cases (is_space c)) [
  | inl e ↦ rw (e, fields_from) refl
  | inr e ↦ rw (e, fields_from) (fields_ink (c ∷ p ∷ part) s)
]

first_or_rest :
    (words rest : List (List ℕ))
    → is_filled {A = List ℕ} (elim words [ [] ↦ rest | word ∷ ws ↦ word ∷ rest ])
      ≡ (is_filled words || is_filled rest)
first_or_rest [] rest = refl
first_or_rest (word ∷ ws) rest = refl

first_words_ink :
    (lines : List (List ℕ)) → is_filled (first_words lines) ≡ any (λ l. any is_ink l) lines
unfolding first_words fields
first_words_ink [] = refl
first_words_ink (line ∷ lines) =
    first_or_rest (fields (trim_space line)) (first_words lines)
    ∙ ap (λ b. b || is_filled (first_words lines))
        (fields_ink [] (trim_space line) ∙ trim_space_ink line)
    ∙ ap (λ b. any is_ink line || b) (first_words_ink lines)

or_regroup : (a b c : Bool) → ((a || b) || c) ≡ (b || (a || c))
or_regroup true true c = refl
or_regroup true false c = refl
or_regroup false b c = refl

newline_space : (c : ℕ) → (c == b'\n') ≡ true → is_ink c ≡ false
unfolding is_space
newline_space c e = ground arith

split_ink :
    (part s : List ℕ)
    → any (λ l. any is_ink l) (split_from b'\n' part s) ≡ (any is_ink part || any is_ink s)
unfolding split_from
split_ink part [] = ap (λ b. b || false) (any-reverse is_ink part)
split_ink part (c ∷ s) = elim (Bool-cases (c == b'\n')) [
  | inl e ↦ rw (e, split_from, any-reverse is_ink part, split_ink [] s, newline_space c e) refl
  | inr e ↦
      rw (e, split_from)
        (split_ink (c ∷ part) s ∙ or_regroup (is_ink c) (any is_ink part) (any is_ink s))
]

filled-append {ℓ} :
    {A : Type ℓ} (xs ys : List A) → is_filled (xs ++ ys) ≡ (is_filled xs || is_filled ys)
filled-append [] ys = refl
filled-append (x ∷ xs) ys = refl

fired_ink : (r : Ran) → is_filled (fired r) ≡ has_printed r
unfolding fired split
fired_ink (output out) =
    first_words_ink (split_from b'\n' [] (trim_space out))
    ∙ split_ink [] (trim_space out)
    ∙ trim_space_ink out
fired_ink (exited code) = refl
fired_ink (not_run e) = refl

matches_ink :
    (run : String → Ran) (files : List String)
    → is_filled (matches run files) ≡ any (λ f. has_printed (run f)) files
unfolding matches
matches_ink run [] = refl
matches_ink run (file ∷ files) =
    filled-append (fired (run file)) (matches run files)
    ∙ ap (λ b. b || is_filled (matches run files)) (fired_ink (run file))
    ∙ ap (λ b. has_printed (run file) || b) (matches_ink run files)

length_filled {ℓ} : {A : Type ℓ} (xs : List A) → ltb 0 (length xs) ≡ is_filled xs
length_filled [] = refl
length_filled (x ∷ xs) = ground arith

length-map {ℓ κ} :
    {A : Type ℓ} {B : Type κ} (f : A → B) (xs : List A) → length (map f xs) ≡ length xs
length-map f [] = refl
length-map f (x ∷ xs) = ap suc (length-map f xs)

-- With a payload and a rule file, the scan gives a verdict without an error. It matches exactly if the
-- run of the program on one of the rule files ended with code 0 and printed something else than spaces,
-- and is then graded `medium`, and otherwise `info`.
pub yara_scan_matches :
    (text : List ℕ → String) (y : YaraScanner) (file : String) (files : List String)
    (run : String → Ran) (i : ScanInput)
    → str_eq i.local_path "" ≡ false
    → let (res, e) = yara_scan text y (ok (file ∷ files)) run i in
      (e ≡ none)
      × (res.is_match ≡ any (λ f. has_printed (run f)) (file ∷ files))
      × (res.severity ≡ (
          if any (λ f. has_printed (run f)) (file ∷ files) then severity_medium else severity_info))
unfolding yara_scan yara_result
yara_scan_matches text y file files run i h =
    let found = map text (matches run (file ∷ files)) in
    let m =
      ap (ltb 0) (length-sort found ∙ length-map text (matches run (file ∷ files)))
      ∙ length_filled (matches run (file ∷ files))
      ∙ matches_ink run (file ∷ files) in
    rw (h, yara_scan, m) (refl, refl, refl)
