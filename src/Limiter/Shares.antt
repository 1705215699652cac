-- ===== src/Limiter/Shares.antt =====
-- limiter.go: what each call holds of the gate and of the count of work in flight.
use s3nitor.Prelude.{
  ℕ, zero, suc, ◌≡◌, refl, ap, Option, some, Option-cases, inl, inr, List, [], ◌∷◌, All, arith,
}
use s3nitor.Prelude.Int.{ℤ, pos, ◌+ℤ◌, ◌≤ℤ◌, int_laws}
use s3nitor.Limiter.Gate.{Gate}
use s3nitor.Limiter.Admission.{
  Phase, waiting, entered, admitted, leaving, left, gone, refused, give_up_at, first_phase,
}

-- What a call holds of the gate, and of the count of work in flight.
abbrev pub gate_share : Phase → ℤ
gate_share (entered w) = w
gate_share (admitted w) = w
gate_share (leaving w) = w
gate_share (left w) = w
gate_share _ = pos 0

abbrev pub count_share : Phase → ℤ
count_share (admitted w) = w
count_share (leaving w) = w
count_share _ = pos 0

abbrev pub gate_total : List Phase → ℤ
gate_total [] = pos 0
gate_total (p ∷ ps) = gate_share p +ℤ gate_total ps

abbrev pub count_total : List Phase → ℤ
count_total [] = pos 0
count_total (p ∷ ps) = count_share p +ℤ count_total ps

module _ (g : Gate) where
  -- The weight of a call is one that the gate admits.
  abbrev pub IsSound : Phase → Type 0
  IsSound (waiting w) = g.Allowed w
  IsSound (entered w) = g.Allowed w
  IsSound (admitted w) = g.Allowed w
  IsSound (leaving w) = g.Allowed w
  IsSound (left w) = g.Allowed w
  IsSound _ = Unit

  pub shares : (p : Phase) → IsSound p → (pos 0 ≤ℤ count_share p) × (count_share p ≤ℤ gate_share p)
  shares (waiting w) a = (omega arith, omega arith)
  shares (entered w) a = (omega arith, omega (arith, g.allowed_pos w a))
  shares (admitted w) a = (omega (arith, g.allowed_pos w a), omega arith)
  shares (leaving w) a = (omega (arith, g.allowed_pos w a), omega arith)
  shares (left w) a = (omega arith, omega (arith, g.allowed_pos w a))
  shares gone a = (omega arith, omega arith)
  shares refused a = (omega arith, omega arith)

  pub totals :
      (ps : List Phase)
      → All IsSound ps
      → (pos 0 ≤ℤ count_total ps) × (count_total ps ≤ℤ gate_total ps)
  totals [] a = (omega arith, omega arith)
  totals (p ∷ ps) (a, as') =
      let (l, h) = shares p a in let (ls, hs) = totals ps as' in (omega int_laws, omega int_laws)

  pub give_up_at-same :
      (i : ℕ) (ps : List Phase)
      → All IsSound ps
      → All IsSound (give_up_at g i ps)
        × (gate_total (give_up_at g i ps) ≡ gate_total ps)
        × (count_total (give_up_at g i ps) ≡ count_total ps)
  unfolding give_up_at
  give_up_at-same i [] a = (tt, refl, refl)
  give_up_at-same zero (waiting w ∷ ps) a = ((tt, a.1), refl, refl)
  give_up_at-same zero (entered w ∷ ps) a = (a, refl, refl)
  give_up_at-same zero (admitted w ∷ ps) a = (a, refl, refl)
  give_up_at-same zero (leaving w ∷ ps) a = (a, refl, refl)
  give_up_at-same zero (left w ∷ ps) a = (a, refl, refl)
  give_up_at-same zero (gone ∷ ps) a = (a, refl, refl)
  give_up_at-same zero (refused ∷ ps) a = (a, refl, refl)
  give_up_at-same (suc i) (p ∷ ps) (a, as') =
      let (s, h, c) = give_up_at-same i ps as' in
      ((a, s), ap (λ x. gate_share p +ℤ x) h, ap (λ x. count_share p +ℤ x) c)

  pub first-IsSound :
      (weigh : ℤ → Option ℤ)
      → ((w n : ℤ) → weigh w ≡ some n → g.Allowed n)
      → (w : ℤ)
      → IsSound (first_phase g (weigh w))
        × (gate_share (first_phase g (weigh w)) ≡ pos 0)
        × (count_share (first_phase g (weigh w)) ≡ pos 0)
  unfolding first_phase
  first-IsSound weigh ok w = elim (Option-cases (weigh w)) [
    | inl e ↦ rw (e, first_phase) (tt, refl, refl)
    | inr (n, e) ↦ rw (e, first_phase) (ok w n e, refl, refl)
  ]

  -- No call is between its Acquire and the end of its release.
  abbrev pub IsIdle : Phase → Type 0
  IsIdle (waiting w) = Unit
  IsIdle gone = Unit
  IsIdle refused = Unit
  IsIdle _ = ⊥

  pub idle_totals :
      (ps : List Phase) → All IsIdle ps → (gate_total ps ≡ pos 0) × (count_total ps ≡ pos 0)
  idle_totals [] a = (refl, refl)
  idle_totals (waiting w ∷ ps) (a, as') =
      let (h, c) = idle_totals ps as' in (rw h (omega int_laws), rw c (omega int_laws))
  idle_totals (entered w ∷ ps) (a, as') = absurd a
  idle_totals (admitted w ∷ ps) (a, as') = absurd a
  idle_totals (leaving w ∷ ps) (a, as') = absurd a
  idle_totals (left w ∷ ps) (a, as') = absurd a
  idle_totals (gone ∷ ps) (a, as') =
      let (h, c) = idle_totals ps as' in (rw h (omega int_laws), rw c (omega int_laws))
  idle_totals (refused ∷ ps) (a, as') =
      let (h, c) = idle_totals ps as' in (rw h (omega int_laws), rw c (omega int_laws))
