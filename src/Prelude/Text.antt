-- ===== src/Prelude/Text.antt =====
-- Texts without a NUL character, and texts joined by one.
use Prim.Native.Char.{code}
use Prim.Native.String.{String, ◌++◌}
use mathlib.Core.Path.{◌≡◌, refl, sym, ap, ap₂, subst, ◌∙◌}
use mathlib.Core.Logic.{◌≢◌}
use mathlib.Core.Bool.{true, false, false≢true}
use mathlib.Core.Logic.{inl, inr}
use text.Mathlib.Text.{◌==◌ as str_eq}
use text.Mathlib.TextEquality.{eq_iff}
use text.Mathlib.TextPositions.{eq_refl}
use Prim.Native.Nat.{ℕ, ◌+◌}
use s3nitor.Prelude.Tests.{Bool-cases, eq_of_iff, ltb, if◌then◌else◌}
use text.Mathlib.TextLemmas.{
  nil-append, cons-append, append-eq-nil_iff, head-eq_of_cons-eq, tail-eq_of_cons-eq,
}

abbrev pub NulFree : String → Type 0
NulFree String.[] = Unit
NulFree (String.◌∷◌ c s) = (code c ≢ 0) × NulFree s

abbrev pub nul : String
nul = "\0"

-- What stands before the first NUL, and what stands behind it, is determined.
pub append-nul_inj :
    (a b x y : String)
    → NulFree a
    → NulFree b
    → a ++ (String.◌∷◌ "\0" x) ≡ b ++ (String.◌∷◌ "\0" y)
    → (a ≡ b) × (x ≡ y)
append-nul_inj String.[] String.[] x y ha hb e =
    (refl, tail-eq_of_cons-eq (sym (nil-append _) ∙ e ∙ nil-append _))
append-nul_inj String.[] (String.◌∷◌ d b) x y ha hb e =
    absurd (hb.0 (sym (ap code (head-eq_of_cons-eq (sym (nil-append _) ∙ e ∙ cons-append d b _)))))
append-nul_inj (String.◌∷◌ c a) String.[] x y ha hb e =
    absurd (ha.0 (ap code (head-eq_of_cons-eq (sym (cons-append c a _) ∙ e ∙ nil-append _))))
append-nul_inj (String.◌∷◌ c a) (String.◌∷◌ d b) x y ha hb e =
    let f = sym (cons-append c a _) ∙ e ∙ cons-append d b _ in
    let (p, q) = append-nul_inj a b x y ha.1 hb.1 (tail-eq_of_cons-eq f) in
    (ap₂ String.◌∷◌ (head-eq_of_cons-eq f) p, q)

pub nul-append : (x : String) → nul ++ x ≡ String.◌∷◌ "\0" x
nul-append x = cons-append "\0" String.[] x ∙ ap (String.◌∷◌ "\0") (nil-append x)

-- The same of texts that are put together from parts.
pub joined_inj :
    (a b x y : String)
    → NulFree a
    → NulFree b
    → a ++ (nul ++ x) ≡ b ++ (nul ++ y)
    → (a ≡ b) × (x ≡ y)
joined_inj a b x y ha hb e =
    append-nul_inj a b x y ha hb (ap (◌++◌ a) (sym (nul-append x)) ∙ e ∙ ap (◌++◌ b) (nul-append y))

-- A text that begins with a text that is not empty is not empty.
pub append_nonempty : (p q : String) → str_eq p "" ≡ false → str_eq (p ++ q) "" ≡ false
append_nonempty p q h = elim (Bool-cases (str_eq (p ++ q) "")) [
  | inr e ↦ e
  | inl e ↦
      let empty = (append-eq-nil_iff.0 ((eq_iff (p ++ q) "").0 e)).0 in
      absurd (false≢true (sym h ∙ (eq_iff p "").1 empty))
]

pub str_eq_sym : (s t : String) → str_eq s t ≡ str_eq t s
str_eq_sym s t =
    eq_of_iff _ _ (λ h. subst (λ x. str_eq x s ≡ true) ((eq_iff s t).0 h) (eq_refl s))
      (λ h. subst (λ x. str_eq x t ≡ true) ((eq_iff t s).0 h) (eq_refl t))

-- The bytes of a text in UTF-8, which Go's `len` counts.
byte_width : ℕ → ℕ
byte_width c = if ltb c 128 then 1 else (if ltb c 2048 then 2 else (if ltb c 65536 then 3 else 4))

unfoldable pub byte_length : String → ℕ
unfolding byte_width
byte_length String.[] = 0
byte_length (String.◌∷◌ c s) = byte_width (code c) + byte_length s
