-- ===== src/Scanner/Ioc/Matches.antt =====
-- ioc_scanner.go: when an object matches, told of its hashes and the lists without the code's tests.
use mathlib.Core.Bool.{false≢true}
use s3nitor.Prelude.{
  String, str_eq, eq_iff, true, ◌≡◌, ◌≢◌, ◌↔◌, ◌⊎◌, refl, sym, ◌∙◌, Bool-cases, inl, inr, none,
  List, [], ◌∷◌, any, if◌then◌else◌,
}
use s3nitor.Scanner.{Hashes, hash_of, ScanInput, severity_info, severity_high}
use s3nitor.Scanner.Ioc.{KnownHashes, is_hit, ioc_scan, ioc_scan_hits}

abbrev pub StandsIn : String → List String → Type 0
StandsIn x [] = ⊥
StandsIn x (y ∷ ys) = (y ≡ x) ⊎ StandsIn x ys

-- The first hash of this algorithm that the object has.
abbrev pub HasHash : Hashes → String → String → Type 0
HasHash [] algo h = ⊥
HasHash ((a, v) ∷ m) algo h = ((a ≡ algo) × (v ≡ h)) ⊎ ((a ≢ algo) × HasHash m algo h)

-- The object has a hash of the list's algorithm, and the hash stands in the list.
abbrev pub IsListed : Hashes → KnownHashes → Type 0
IsListed m (algo, set) = (h : String) × HasHash m algo h × (h ≢ "") × StandsIn h set

-- Some list knows the object.
abbrev pub IsKnown : Hashes → List KnownHashes → Type 0
IsKnown m [] = ⊥
IsKnown m (k ∷ ks) = IsListed m k ⊎ IsKnown m ks

hash_of-HasHash :
    (m : Hashes) (algo : String) → hash_of algo m ≢ "" → HasHash m algo (hash_of algo m)
unfolding hash_of
hash_of-HasHash [] algo h = h refl
hash_of-HasHash ((a, v) ∷ m) algo h = elim (Bool-cases (str_eq a algo)) [
  | inl e ↦ inl ((eq_iff a algo).0 e, rw e refl)
  | inr e ↦
      inr (λ p. false≢true (sym e ∙ (eq_iff a algo).1 p), rw e (hash_of-HasHash m algo (rw e at h)))
]

HasHash-hash_of : (m : Hashes) (algo h : String) → HasHash m algo h → hash_of algo m ≡ h
unfolding hash_of
HasHash-hash_of [] algo h has = absurd has
HasHash-hash_of ((a, v) ∷ m) algo h (inl (e, p)) = rw ((eq_iff a algo).1 e) p
HasHash-hash_of ((a, v) ∷ m) algo h (inr (n, has)) = elim (Bool-cases (str_eq a algo)) [
  | inl e ↦ absurd (n ((eq_iff a algo).0 e))
  | inr e ↦ rw e (HasHash-hash_of m algo h has)
]

any-StandsIn : (h : String) (set : List String) → (any (str_eq h) set ≡ true) → StandsIn h set
any-StandsIn h [] e = absurd (false≢true e)
any-StandsIn h (x ∷ xs) e = elim (Bool-cases (str_eq h x)) [
  | inl p ↦ inl (sym ((eq_iff h x).0 p))
  | inr p ↦ inr (any-StandsIn h xs (rw p at e))
]

StandsIn-any : (h : String) (set : List String) → StandsIn h set → any (str_eq h) set ≡ true
StandsIn-any h [] s = absurd s
StandsIn-any h (x ∷ xs) (inl e) = rw ((eq_iff h x).1 (sym e)) refl
StandsIn-any h (x ∷ xs) (inr s) = elim (Bool-cases (str_eq h x)) [
  | inl p ↦ rw p refl
  | inr p ↦ rw p (StandsIn-any h xs s)
]

hit-IsListed : (m : Hashes) (k : KnownHashes) → is_hit m k ≡ true → IsListed m k
unfolding is_hit
hit-IsListed m (algo, set) e = elim (Bool-cases (str_eq (hash_of algo m) "")) [
  | inl blank ↦ absurd (false≢true (rw blank at e))
  | inr named ↦
      let there : hash_of algo m ≢ "" = λ p. false≢true (sym named ∙ (eq_iff _ _).1 p) in
      (
        hash_of algo m,
        hash_of-HasHash m algo there,
        there,
        any-StandsIn (hash_of algo m) set (rw named at e),
      )
]

IsListed-hit : (m : Hashes) (k : KnownHashes) → IsListed m k → is_hit m k ≡ true
unfolding is_hit
IsListed-hit m (algo, set) (h, has, there, stands) = elim (Bool-cases (str_eq h "")) [
  | inl blank ↦ absurd (there ((eq_iff h "").0 blank))
  | inr named ↦ rw (HasHash-hash_of m algo h has, named) (StandsIn-any h set stands)
]

any-IsKnown : (m : Hashes) (ks : List KnownHashes) → any (is_hit m) ks ≡ true → IsKnown m ks
any-IsKnown m [] e = false≢true e
any-IsKnown m (k ∷ ks) e = elim (Bool-cases (is_hit m k)) [
  | inl p ↦ inl (hit-IsListed m k p)
  | inr p ↦ inr (any-IsKnown m ks (rw p at e))
]

IsKnown-any : (m : Hashes) (ks : List KnownHashes) → IsKnown m ks → any (is_hit m) ks ≡ true
IsKnown-any m [] s = absurd s
IsKnown-any m (k ∷ ks) (inl s) = rw (IsListed-hit m k s) refl
IsKnown-any m (k ∷ ks) (inr s) = elim (Bool-cases (is_hit m k)) [
  | inl p ↦ rw p refl
  | inr p ↦ rw p (IsKnown-any m ks s)
]

-- An object with hashes gets a verdict without an error, in whatever order the lists are searched: it
-- matches exactly if the hash that it has of some list's algorithm is not empty and stands in that
-- list. A match is graded `high`, and everything else `info`.
pub ioc_scan_matches :
    (sets : List KnownHashes) (i : ScanInput) (h : String × String) (hs : Hashes)
    → i.hashes ≡ h ∷ hs
    → let (res, e) = ioc_scan sets i in
      (e ≡ none)
      × ((res.is_match ≡ true) ↔ IsKnown i.hashes sets)
      × (res.severity ≡ (if res.is_match then severity_high else severity_info))
ioc_scan_matches sets i h hs e =
    let (ok, hit, graded) = ioc_scan_hits sets i h hs e in
    (
      ok,
      (λ p. any-IsKnown i.hashes sets (sym hit ∙ p), λ s. hit ∙ IsKnown-any i.hashes sets s),
      rw hit graded,
    )
