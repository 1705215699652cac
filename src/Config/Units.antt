-- ===== src/Config/Units.antt =====
-- config.go: what the loop of ParseBytes over the units finds behind digits.
use mathlib.Core.List.{reverse, reverse-cons, reverse-reverse}
use s3nitor.Prelude.{
  ℕ, ◌≡◌, refl, sym, ap, ◌∙◌, ◌⊎◌, inl, inr, true, false, none, some, Option-cases, List, [], ◌∷◌,
  ◌++◌, All, leb, ◌==◌, arith,
}
use s3nitor.Bytes.{
  codes, is_space, trim_left, trim_space, to_upper, upper, after_prefix, before_suffix,
}
use s3nitor.Config.Getters.{Parsers, is_digit, units, take_unit, sized, parse_bytes, kb, mb, gb}

-- What a unit stands for. The empty one is that of bytes.
abbrev pub HasFactor : List ℕ → ℕ → Type 0
HasFactor unit factor =
    ((unit ≡ codes "KB") × (factor ≡ kb))
    ⊎ ((unit ≡ codes "MB") × (factor ≡ mb))
    ⊎ ((unit ≡ codes "GB") × (factor ≡ gb))
    ⊎ ((unit ≡ codes "KiB") × (factor ≡ kb))
    ⊎ ((unit ≡ codes "MiB") × (factor ≡ mb))
    ⊎ ((unit ≡ codes "GiB") × (factor ≡ gb))
    ⊎ ((unit ≡ []) × (factor ≡ 1))

trim_left_solid : (c : ℕ) (s : List ℕ) → is_space c ≡ false → trim_left (c ∷ s) ≡ c ∷ s
unfolding trim_left
trim_left_solid c s h = rw h refl

pub digit-no_space : (c : ℕ) → is_digit c ≡ true → is_space c ≡ false
unfolding is_digit is_space
digit-no_space c h = ground arith

digit-upper : (c : ℕ) → is_digit c ≡ true → to_upper c ≡ c
unfolding is_digit to_upper
digit-upper c h = ground arith

abbrev pub AreDigits : List ℕ → Type 0
AreDigits ds = All (λ c. is_digit c ≡ true) ds

pub upper_digits : (ds u : List ℕ) → AreDigits ds → upper (ds ++ u) ≡ ds ++ upper u
unfolding upper
upper_digits [] u h = refl
upper_digits (d ∷ ds) u (h, hs) = rw (digit-upper d h, upper_digits ds u hs) refl

-- Digits read backwards.
pub last_digit :
    (d : ℕ) (ds : List ℕ)
    → AreDigits (d ∷ ds)
    → (c : ℕ) × (t : List ℕ) × (reverse (d ∷ ds) ≡ c ∷ t) × (is_digit c ≡ true)
last_digit d [] h = (d, [], refl, h.0)
last_digit d (e ∷ es) h =
    let (c, t, same, digit) = last_digit e es h.1 in
    (c, t ++ d ∷ [], reverse-cons d (e ∷ es) ∙ ap (λ r. r ++ d ∷ []) same, digit)

pub trim_solid :
    (d : ℕ) (s : List ℕ) (c : ℕ) (t : List ℕ)
    → reverse (d ∷ s) ≡ c ∷ t
    → is_space d ≡ false
    → is_space c ≡ false
    → trim_space (d ∷ s) ≡ d ∷ s
unfolding trim_space
trim_solid d s c t e first last =
    ap (λ r. reverse (trim_left (reverse r))) (trim_left_solid d s first)
    ∙ ap (λ r. reverse (trim_left r)) e
    ∙ ap reverse (trim_left_solid c t last ∙ sym e)
    ∙ reverse-reverse (d ∷ s)

-- The loop over the units, on the text read backwards.
pub take_back : List (List ℕ × ℕ) → List ℕ → List ℕ → List ℕ × ℕ
take_back [] s r = (s, 1)
take_back ((suffix, factor) ∷ us) s r = elim (after_prefix (reverse suffix) r) [
  | some rest ↦ (trim_space (reverse rest), factor)
  | none ↦ take_back us s r
]

pub take_unit-back :
    (us : List (List ℕ × ℕ)) (s : List ℕ) → take_unit us s ≡ take_back us s (reverse s)
unfolding take_unit take_back before_suffix
take_unit-back [] s = refl
take_unit-back ((suffix, factor) ∷ us) s =
    elim (Option-cases (after_prefix (reverse suffix) (reverse s))) [
      | inl e ↦ rw (e, take_unit, take_back) (take_unit-back us s)
      | inr (rest, e) ↦ rw (e, take_unit, take_back) refl
    ]

no_unit :
    (us : List (List ℕ × ℕ)) (s r : List ℕ)
    → All (λ u. after_prefix (reverse u.0) r ≡ none) us
    → take_back us s r ≡ (s, 1)
unfolding take_back
no_unit [] s r h = refl
no_unit ((suffix, factor) ∷ us) s r (h, hs) = rw (h, take_back) (no_unit us s r hs)

-- No unit begins, read backwards, with a digit.
digit_misses :
    (q : ℕ) (ps t : List ℕ) (c : ℕ)
    → leb b'A' q ≡ true
    → is_digit c ≡ true
    → after_prefix (q ∷ ps) (c ∷ t) ≡ none
unfolding after_prefix is_digit
digit_misses q ps t c h k = let e : (q == c) ≡ false = ground arith in rw e refl

pub back_digit :
    (s : List ℕ) (c : ℕ) (t : List ℕ) → is_digit c ≡ true → take_back units s (c ∷ t) ≡ (s, 1)
unfolding units
back_digit s c t h =
    let miss = λ (q : ℕ) (ps : List ℕ) (k : leb b'A' q ≡ true). digit_misses q ps t c k h in
    no_unit units s (c ∷ t) (
      miss b'B' (codes "IK") refl,
      (
        miss b'B' (codes "IM") refl,
        (
          miss b'B' (codes "IG") refl,
          (
            miss b'B' (codes "K") refl,
            (
              miss b'B' (codes "M") refl,
              (
                miss b'B' (codes "G") refl,
                (
                  miss b'K' [] refl,
                  (miss b'M' [] refl, (miss b'G' [] refl, (miss b'B' [] refl, tt))),
                ),
              ),
            ),
          ),
        ),
      ),
    )

-- A unit, and what it is in capitals.
pub back_unit :
    (unit : List ℕ) (factor : ℕ) (s r : List ℕ)
    → HasFactor unit factor
    → (unit ≡ [])
      ⊎ (take_back units s (reverse (upper unit) ++ r) ≡ (trim_space (reverse r), factor))
unfolding take_back units after_prefix upper to_upper
back_unit unit factor s r (inl (e, h)) = inr (rw (e, h) refl)
back_unit unit factor s r (inr (inl (e, h))) = inr (rw (e, h) refl)
back_unit unit factor s r (inr (inr (inl (e, h)))) = inr (rw (e, h) refl)
back_unit unit factor s r (inr (inr (inr (inl (e, h))))) = inr (rw (e, h) refl)
back_unit unit factor s r (inr (inr (inr (inr (inl (e, h)))))) = inr (rw (e, h) refl)
back_unit unit factor s r (inr (inr (inr (inr (inr (inl (e, h))))))) = inr (rw (e, h) refl)
back_unit unit factor s r (inr (inr (inr (inr (inr (inr (e, h))))))) = inl e

-- The unit is no space.
pub unit_end :
    (unit : List ℕ) (factor : ℕ)
    → HasFactor unit factor
    → (unit ≡ []) ⊎ ((c : ℕ) × (t : List ℕ) × (reverse (upper unit) ≡ c ∷ t) × (is_space c ≡ false))
unfolding upper to_upper is_space
unit_end unit factor (inl (e, h)) = inr (b'B', codes "K", rw e refl, refl)
unit_end unit factor (inr (inl (e, h))) = inr (b'B', codes "M", rw e refl, refl)
unit_end unit factor (inr (inr (inl (e, h)))) = inr (b'B', codes "G", rw e refl, refl)
unit_end unit factor (inr (inr (inr (inl (e, h))))) = inr (b'B', codes "IK", rw e refl, refl)
unit_end unit factor (inr (inr (inr (inr (inl (e, h)))))) = inr (b'B', codes "IM", rw e refl, refl)
unit_end unit factor (inr (inr (inr (inr (inr (inl (e, h))))))) =
    inr (b'B', codes "IG", rw e refl, refl)
unit_end unit factor (inr (inr (inr (inr (inr (inr (e, h))))))) = inl e

pub factor_of_none : (factor : ℕ) → HasFactor [] factor → factor ≡ 1
factor_of_none factor h = ground arith

pub parse_bytes-trimmed :
    (p : Parsers) (raw : List ℕ) (c : ℕ) (s : List ℕ)
    → trim_space (upper raw) ≡ c ∷ s
    → parse_bytes p raw ≡ sized p raw (take_unit units (c ∷ s))
unfolding parse_bytes
parse_bytes-trimmed p raw c s e = rw (e, parse_bytes) refl
