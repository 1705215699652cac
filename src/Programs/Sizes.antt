-- ===== src/Programs/Sizes.antt =====
-- cmd/s3scanner/main.go: humanBytes. Numbers of 1024 and more are non-negative int64, whose bits they are
-- here; the two formats of fmt are parameters.
use native.Mathlib.Nat.{mul-le-mul_left, pow-le-pow_right, pow-suc}
use s3nitor.Prelude.{
  ℕ, zero, suc, ◌+◌, ◌*◌, ◌/◌, ◌%◌, ◌^◌, ◌≤◌, ◌<◌, ◌≡◌, refl, ap, inl, inr, Bool-cases, String,
  Option, none, some, List, [], ◌∷◌, true, false, ltb, leb, leb→le, arith, if◌then◌else◌,
}
use s3nitor.Prelude.Int.{ℤ, pos, negsuc}

-- The loop: the divisor and the exponent. None is a loop that runs out of fuel.
unfoldable scaled : ℕ → ℕ → ℕ → ℕ → Option (ℕ × ℕ)
scaled zero n div exp = none
scaled (suc fuel) n div exp =
    let rest = scaled fuel (n / 1024) (div * 1024 % 2 ^ 64) (suc exp) in
    if leb 1024 n then rest else some (div, exp)

unfoldable pub units : List String
units = "K" ∷ "M" ∷ "G" ∷ "T" ∷ "P" ∷ "E" ∷ []

-- The unit at an index; none is an index out of range, at which the program would stop.
unfoldable pub unit_at : ℕ → List String → Option String
unit_at n [] = none
unit_at zero (u ∷ us) = some u
unit_at (suc n) (u ∷ us) = unit_at n us

-- `whole` is `%dB`, and `tenths b div unit` is `%.1f%ciB` of the quotient as a float64.
module _ (whole : ℤ → String) (tenths : ℕ → ℕ → String → String) where
  unfoldable scaled_text : ℕ → Option (ℕ × ℕ) → Option String
  unfolding unit_at units
  scaled_text b none = none
  scaled_text b (some (div, exp)) = elim (unit_at exp units) [
    | none ↦ none
    | some unit ↦ some (tenths b div unit)
  ]

  unfoldable pub human_bytes : ℤ → Option String
  unfolding scaled scaled_text
  human_bytes (negsuc b) = some (whole (negsuc b))
  human_bytes (pos b) =
      if ltb b 1024 then some (whole (pos b)) else scaled_text b (scaled 7 (b / 1024) 1024 0)

-- While the divisor is the largest power that does not exceed the number.
record Fits (fuel n div exp b : ℕ) : Type 0 where
  low : div * n ≤ b
  high : b < div * (n + 1)
  some_left : 1 ≤ n
  power : div ≡ 1024 ^ suc exp
  enough : n < 1024 ^ fuel

pow_of_suc : (k : ℕ) → 1024 ^ suc k ≡ 1024 ^ k * 1024
pow_of_suc k = pow-suc 1024 k

step-Fits :
    (fuel n div exp b : ℕ)
    → b < 2 ^ 63
    → leb 1024 n ≡ true
    → Fits (suc fuel) n div exp b
    → Fits fuel (n / 1024) (div * 1024 % 2 ^ 64) (suc exp) b
step-Fits fuel n div exp b small more fits =
    let q = n / 1024 in
    let below : 1024 * q ≤ n = omega arith in
    let above : n + 1 ≤ 1024 * (q + 1) = omega arith in
    let low = mul-le-mul_left div below in
    let high = mul-le-mul_left div above in
    let big = mul-le-mul_left div (leb→le 1024 n more) in
    let same : div * 1024 % 2 ^ 64 ≡ div * 1024 = omega (arith, big, fits.low, small) in
    rw same (record {
      low = omega (arith, low, fits.low);
      high = omega (arith, high, fits.high);
      some_left = omega (arith, leb→le 1024 n more);
      power = omega (arith, fits.power, pow_of_suc (suc exp));
      enough = omega (arith, fits.enough, pow_of_suc fuel, below);
    })

below_1024 : (n : ℕ) → leb 1024 n ≡ false → n + 1 ≤ 1024
below_1024 n h = ground arith

seven_le : (e : ℕ) → 1024 ^ 7 ≤ 1024 ^ suc (suc (suc (suc (suc (suc (suc e))))))
seven_le e = pow-le-pow_right {n = 1024} (omega arith) {i = 7} (omega arith)

unit-in_range : (e : ℕ) → 1024 ^ suc e < 2 ^ 63 → (u : String) × (unit_at e units ≡ some u)
unfolding unit_at units
unit-in_range zero h = ("K", refl)
unit-in_range (suc zero) h = ("M", refl)
unit-in_range (suc (suc zero)) h = ("G", refl)
unit-in_range (suc (suc (suc zero))) h = ("T", refl)
unit-in_range (suc (suc (suc (suc zero)))) h = ("P", refl)
unit-in_range (suc (suc (suc (suc (suc zero))))) h = ("E", refl)
unit-in_range (suc (suc (suc (suc (suc (suc e)))))) h = absurd (omega (arith, h, seven_le e))

-- The loop ends with the power of 1024 that the number lies at or above, below the next.
scaled-ends :
    (fuel n div exp b : ℕ)
    → b < 2 ^ 63
    → Fits fuel n div exp b
    → (e : ℕ) × (scaled fuel n div exp ≡ some (1024 ^ suc e, e))
      × (1024 ^ suc e ≤ b)
      × (b < 1024 ^ suc (suc e))
unfolding scaled
scaled-ends zero n div exp b small fits = absurd (omega (arith, fits.enough, fits.some_left))
scaled-ends (suc fuel) n div exp b small fits = elim (Bool-cases (leb 1024 n)) [
  | inl more ↦
      rw (more, scaled)
        (scaled-ends fuel (n / 1024) (div * 1024 % 2 ^ 64) (suc exp) b small
          (step-Fits fuel n div exp b small more fits))
  | inr last ↦ (
    exp,
    rw (last, scaled) (ap (λ d. some (d, exp)) fits.power),
    omega (arith, fits.power, fits.low, mul-le-mul_left div fits.some_left),
    omega (
      arith,
      fits.power,
      fits.high,
      pow_of_suc (suc exp),
      mul-le-mul_left div (below_1024 n last),
    ),
  )
]

at_least : (b : ℕ) → 1024 ≤ b → ltb b 1024 ≡ false
at_least b h = ground arith

scaled_text_lem :
    (whole : ℤ → String) (tenths : ℕ → ℕ → String → String) (b d e : ℕ) (u : String)
    (r : Option (ℕ × ℕ))
    → r ≡ some (d, e)
    → unit_at e units ≡ some u
    → scaled_text whole tenths b r ≡ some (tenths b d u)
unfolding scaled_text
scaled_text_lem whole tenths b d e u r ends named = rw (ends, scaled_text, named) refl

-- For 1024 bytes up to what an int64 holds the loop ends, and its exponent has a unit: the text is made of
-- the number, the power of 1024 that it lies at or above, below the next, and the unit of that power.
pub human_bytes_scales :
    (whole : ℤ → String) (tenths : ℕ → ℕ → String → String) (b : ℕ)
    → 1024 ≤ b
    → b < 2 ^ 63
    → (e : ℕ) × (u : String) × (unit_at e units ≡ some u)
      × (1024 ^ suc e ≤ b)
      × (b < 1024 ^ suc (suc e))
      × (human_bytes whole tenths (pos b) ≡ some (tenths b (1024 ^ suc e) u))
unfolding human_bytes
human_bytes_scales whole tenths b large small =
    let (e, ends, low, high) = scaled-ends 7 (b / 1024) 1024 0 b small (record {
      low = omega arith;
      high = omega arith;
      some_left = omega arith;
      power = refl;
      enough = omega arith;
    }) in
    let (u, named) = unit-in_range e (omega arith) in
    (
      e,
      u,
      named,
      low,
      high,
      rw (at_least b large, human_bytes)
          (scaled_text_lem whole tenths b (1024 ^ suc e) e u (scaled 7 (b / 1024) 1024 0) ends
            named),
    )
