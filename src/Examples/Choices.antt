-- ===== src/Examples/Choices.antt =====
-- Lists that are cut by a test, and rows that are chosen by one.
use mathlib.Core.Bool.{false≢true}
use s3nitor.Prelude.{
  ℕ, zero, suc, ◌≡◌, ◌≤◌, refl, sym, ap, ◌∙◌, inl, inr, Bool, true, false, Bool-cases, ◌&&◌, Option,
  none, some, List, [], ◌∷◌, All, any, length, take, length-take, keep, arith, if◌then◌else◌,
}

pub overwritten :
    {R : Type 0} (b : Bool) (r q : R) (o : Option R)
    → (if b then some r else o) ≡ (if b then some r else (if b then some q else o))
overwritten true r q o = refl
overwritten false r q o = refl

pub swapped :
    {R : Type 0} (b c : Bool) (q r : R) (o : Option R)
    → (b && c) ≡ false
    → (if b then some q else (if c then some r else o))
      ≡ (if c then some r else (if b then some q else o))
swapped true true q r o h = absurd (false≢true (sym h))
swapped true false q r o h = refl
swapped false true q r o h = refl
swapped false false q r o h = refl

pub All-keep :
    {A : Type 0} (P Q : A → Type 0) (c : A → Bool) (xs : List A)
    → All P xs
    → ((x : A) → P x → c x ≡ true → Q x)
    → All Q (keep c xs)
All-keep P Q c [] h f = tt
All-keep P Q c (x ∷ xs) (h, hs) f = elim (Bool-cases (c x)) [
  | inl e ↦ rw e (f x h e, All-keep P Q c xs hs f)
  | inr e ↦ rw e (All-keep P Q c xs hs f)
]

pub any-keep :
    {A : Type 0} (c d : A → Bool) (xs : List A)
    → ((x : A) → c x ≡ true → d x ≡ true)
    → any c (keep d xs) ≡ any c xs
any-keep c d [] f = refl
any-keep c d (x ∷ xs) f = elim (Bool-cases (d x)) [
  | inl e ↦ rw (e, any-keep c d xs f) refl
  | inr e ↦ elim (Bool-cases (c x)) [
    | inl g ↦ absurd (false≢true (sym e ∙ f x g))
    | inr g ↦ rw (e, g, any-keep c d xs f) refl
  ]
]

pub All-take : {A : Type 0} (P : A → Type 0) (n : ℕ) (xs : List A) → All P xs → All P (take n xs)
All-take P zero xs h = tt
All-take P (suc n) [] h = tt
All-take P (suc n) (x ∷ xs) (h, hs) = (h, All-take P n xs hs)

pub ahead :
    {A : Type 0} (b : Bool) (x : A) (xs : List A) (c : A → Bool)
    → any c xs ≡ true
    → any c (if b then x ∷ xs else xs) ≡ true
ahead true x xs c h = ground arith
ahead false x xs c h = h

pub take_few : {A : Type 0} (n : ℕ) (xs : List A) → length (take n xs) ≤ n
take_few n xs = omega (arith, length-take n xs)

pub some_inj : {A : Type 0} (a b : A) → some a ≡ some b → a ≡ b
some_inj {A} a b e = ap or_a e
  where
    or_a : Option A → A
    or_a none = a
    or_a (some x) = x
