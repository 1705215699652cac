-- ===== src/Config/Sizes.antt =====
-- config.go: what ParseBytes reads in a size that is written as digits and a unit.
use mathlib.Core.List.{reverse, reverse-append, reverse-reverse}
use s3nitor.Prelude.{
  ℕ, ◌+◌, ◌-◌, ◌*◌, ◌^◌, ◌<◌, ◌≡◌, refl, sym, ap, subst, ◌∙◌, inl, inr, Bool-cases, false, some,
  List, [], ◌∷◌, ◌++◌, append-nil, arith,
}
use s3nitor.Prelude.Int.{pos}
use s3nitor.Fallible.{ok}
use s3nitor.Bytes.{is_space, trim_space, upper}
use s3nitor.Config.Getters.{Parsers, is_digit, digits, units, take_unit, sized, parse_bytes}
use s3nitor.Config.Units.{
  HasFactor, digit-no_space, AreDigits, upper_digits, last_digit, trim_solid, take_back,
  take_unit-back, back_digit, back_unit, unit_end, factor_of_none, parse_bytes-trimmed,
}

module _ (d : ℕ) (ds : List ℕ) (digital : AreDigits (d ∷ ds)) where
  trim_digits : trim_space (d ∷ ds) ≡ d ∷ ds
  trim_digits =
      let (c, t, same, digit) = last_digit d ds digital in
      trim_solid d ds c t same (digit-no_space d digital.0) (digit-no_space c digit)

  text_end :
      (unit : List ℕ) (factor : ℕ)
      → HasFactor unit factor
      → (c : ℕ) × (t : List ℕ) × (reverse ((d ∷ ds) ++ upper unit) ≡ c ∷ t) × (is_space c ≡ false)
  unfolding upper
  text_end unit factor has = elim (unit_end unit factor has) [
    | inl e ↦
        let (c, t, same, digit) = last_digit d ds digital in
        (
          c,
          t,
          ap (λ u. reverse ((d ∷ ds) ++ upper u)) e ∙ ap reverse (append-nil (d ∷ ds)) ∙ same,
          digit-no_space c digit,
        )
    | inr (c, t, same, solid) ↦ (
      c,
      t ++ reverse (d ∷ ds),
      reverse-append (d ∷ ds) (upper unit) ∙ ap (λ r. r ++ reverse (d ∷ ds)) same,
      solid,
    )
  ]

  take_unit_factor :
      (unit : List ℕ) (factor : ℕ)
      → HasFactor unit factor
      → take_unit units ((d ∷ ds) ++ upper unit) ≡ (d ∷ ds, factor)
  unfolding upper
  take_unit_factor unit factor has =
      let (c, t, same, digit) = last_digit d ds digital in
      elim (back_unit unit factor ((d ∷ ds) ++ upper unit) (reverse (d ∷ ds)) has) [
        | inl e ↦
            ap (λ u. take_unit units ((d ∷ ds) ++ upper u)) e
            ∙ ap (take_unit units) (append-nil (d ∷ ds))
            ∙ take_unit-back units (d ∷ ds)
            ∙ ap (take_back units (d ∷ ds)) same
            ∙ back_digit (d ∷ ds) c t digit
            ∙ ap (λ n. (d ∷ ds, n))
                (sym (factor_of_none factor (subst (λ u. HasFactor u factor) e has)))
        | inr e ↦
            take_unit-back units ((d ∷ ds) ++ upper unit)
            ∙ ap (take_back units ((d ∷ ds) ++ upper unit)) (reverse-append (d ∷ ds) (upper unit))
            ∙ e
            ∙ ap (λ u. (trim_space u, factor)) (reverse-reverse (d ∷ ds))
            ∙ ap (λ u. (u, factor)) trim_digits
      ]

  -- With a unit behind digits, ParseBytes reads the digits and multiplies by what the unit stands for.
  parse_bytes-sized :
      (p : Parsers) (unit : List ℕ) (factor : ℕ)
      → HasFactor unit factor
      → parse_bytes p ((d ∷ ds) ++ unit) ≡ sized p ((d ∷ ds) ++ unit) (d ∷ ds, factor)
  parse_bytes-sized p unit factor has =
      let (c, t, same, solid) = text_end unit factor has in
      parse_bytes-trimmed p ((d ∷ ds) ++ unit) d (ds ++ upper unit) (
        ap trim_space (upper_digits (d ∷ ds) unit digital)
        ∙ trim_solid d (ds ++ upper unit) c t same (digit-no_space d digital.0) solid)
      ∙ ap (sized p ((d ∷ ds) ++ unit)) (take_unit_factor unit factor has)

-- What the parsers and float64 do with whole numbers that it holds exactly.
pub record IsExact (p : Parsers) : Type 0 where
  pub parses :
      (ds : List ℕ) (n : ℕ)
      → digits 0 ds ≡ some n
      → n < 2 ^ 53
      → p.parse_float ds ≡ some (p.of_int (pos n))
  pub nonnegative : (n : ℕ) → p.is_negative (p.of_int (pos n)) ≡ false
  pub multiplies :
      (a b : ℕ)
      → a * b < 2 ^ 53
      → p.to_int64 (p.mul (p.of_int (pos a)) (p.of_int (pos b))) ≡ pos (a * b)

factor_pos : (unit : List ℕ) (factor : ℕ) → HasFactor unit factor → 0 < factor
factor_pos unit factor h = ground arith

digits-AreDigits : (n m : ℕ) (ds : List ℕ) → digits n ds ≡ some m → AreDigits ds
unfolding digits
digits-AreDigits n m [] h = tt
digits-AreDigits n m (c ∷ s) h = elim (Bool-cases (is_digit c)) [
  | inl e ↦ (e, digits-AreDigits (n * 10 + c - b'0') m s (rw (e, digits) at h))
  | inr e ↦ absurd (ground (arith, rw (e, digits) at h))
]

-- ParseBytes reads the digits of a number with KB, MB, GB, KiB, MiB, GiB or no unit behind them as the
-- number times 2^10, 2^20, 2^30 or 1, if a float64 holds the product exactly (below 2^53).
pub parse_bytes_reads :
    (p : Parsers) (d : ℕ) (ds unit : List ℕ) (n factor : ℕ)
    → IsExact p
    → digits 0 (d ∷ ds) ≡ some n
    → HasFactor unit factor
    → n * factor < 2 ^ 53
    → parse_bytes p ((d ∷ ds) ++ unit) ≡ ok (pos (n * factor))
unfolding sized
parse_bytes_reads p d ds unit n factor exact e has h =
    let small : n < 2 ^ 53 = grind (arith, factor_pos unit factor has) in
    parse_bytes-sized d ds (digits-AreDigits 0 n (d ∷ ds) e) p unit factor has
    ∙ rw (exact.parses (d ∷ ds) n e small, sized, exact.nonnegative n, exact.multiplies n factor h)
        refl
