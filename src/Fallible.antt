-- ===== src/Fallible.antt =====
-- The pairs `(T, error)` that Go functions return, where the value counts only without an error.
use s3nitor.Prelude.{◌≡◌, refl, ◌⊎◌, inl, inr, Bool, true, false}
use s3nitor.Scanner.{GoError}

pub data Try {ℓ} (A : Type ℓ) : Type ℓ where
  ok : A → Try A
  err : GoError → Try A

infixl 5 ◌>>=◌ ◌>>◌
abbrev pub ◌>>=◌ {ℓ κ} : {A : Type ℓ} {B : Type κ} → Try A → (A → Try B) → Try B
ok a >>= f = f a
err e >>= f = err e

abbrev pub ◌>>◌ {ℓ} : {B : Type ℓ} → Try (Unit {0}) → Try B → Try B
m >> k = m >>= λ _. k

-- `if !ok { return err }`.
abbrev guard : Bool → GoError → Try (Unit {0})
guard true e = ok tt
guard false e = err e

-- `fmt.Errorf("...: %w", err)`.
abbrev pub wrap_error {ℓ} : {A : Type ℓ} → (GoError → GoError) → Try A → Try A
wrap_error w (ok a) = ok a
wrap_error w (err e) = err (w e)

pub Try-cases {ℓ} :
    {A : Type ℓ} (t : Try A) → ((a : A) × (t ≡ ok a)) ⊎ ((e : GoError) × (t ≡ err e))
Try-cases (ok a) = inl (a, refl)
Try-cases (err e) = inr (e, refl)
