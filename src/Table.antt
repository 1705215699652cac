-- ===== src/Table.antt =====
-- A table of the database, through the calls of gorm that internal/db makes. gorm and the database
-- are parameters; the laws are what SQL documents of the statements that those calls stand for.
use mathlib.Core.Option
use s3nitor.Prelude.{
  ℕ, ◌≡◌, refl, ◌⊎◌, inl, inr, ◌≤◌, Bool, true, Option, none, some, List, All, any, length,
  if◌then◌else◌,
}
use s3nitor.Scanner.{GoError}

-- A statement fails and changes nothing, or gives the new state and the number of rows affected.
pub data Write (S : Type 0) : Type 0 where
  failed : GoError → Write S
  done : S → ℕ → Write S

-- A query for one row by its key.
pub data Look (R : Type 0) : Type 0 where
  found : R → Look R
  missing : Look R
  look_failed : GoError → Look R

pub Write-cases :
    {S : Type 0} (w : Write S)
    → ((e : GoError) × (w ≡ failed e)) ⊎ ((s : S) × (n : ℕ) × (w ≡ done s n))
Write-cases (failed e) = inl (e, refl)
Write-cases (done s n) = inr (s, n, refl)

-- A query is answered, or fails.
pub data Answer (R : Type 0) : Type 0 where
  rows : List R → Answer R
  unread : GoError → Answer R

pub Answer-cases :
    {R : Type 0} (a : Answer R) → ((e : GoError) × (a ≡ unread e)) ⊎ ((rs : List R) × (a ≡ rows rs))
Answer-cases (unread e) = inl (e, refl)
Answer-cases (rows rs) = inr (rs, refl)

abbrev pub or_insert {ℓ} : {R : Type ℓ} → Option R → R → R
or_insert none r = r
or_insert (some old) r = old

abbrev pub count_row {ℓ} : {R : Type ℓ} → (R → Bool) → Option R → ℕ
count_row p none = 0
count_row p (some r) = if p r then 1 else 0

-- `key` reads the primary key of a row, and `same` compares keys.
pub record Table (K R : Type 0) (key : R → K) (same : K → K → Bool) : Type 1 where
  pub State : Type 0
  -- the row of a primary key
  pub row_at : State → K → Option R
  -- UPDATE … SET f WHERE key = k AND p
  pub update : K → (R → Bool) → (R → R) → State → Write State
  -- INSERT r ON CONFLICT (key) DO UPDATE SET f
  pub upsert : R → (R → R) → State → Write State
  -- SELECT … WHERE p LIMIT n
  pub select : (R → Bool) → ℕ → State → Answer R
  -- SELECT … WHERE p
  pub select_all : (R → Bool) → State → Answer R
  -- SELECT … WHERE key = k LIMIT 1
  pub first : K → State → Look R
  pub update-row_at :
      (k : K) (p : R → Bool) (f : R → R) (s t : State) (n : ℕ) (j : K)
      → update k p f s ≡ done t n
      → row_at t j
        ≡ (if same k j then Option.map (λ r. if p r then f r else r) (row_at s j) else row_at s j)
  pub update_count :
      (k : K) (p : R → Bool) (f : R → R) (s t : State) (n : ℕ)
      → update k p f s ≡ done t n
      → n ≡ count_row p (row_at s k)
  pub upsert-row_at :
      (r : R) (f : R → R) (s t : State) (n : ℕ) (j : K)
      → upsert r f s ≡ done t n
      → row_at t j
        ≡ (if same (key r) j then some (or_insert (Option.map f (row_at s j)) r) else row_at s j)
  pub select_sound :
      (p : R → Bool) (n : ℕ) (s : State) (rs : List R)
      → select p n s ≡ rows rs
      → All (λ r. (row_at s (key r) ≡ some r) × (p r ≡ true)) rs
  pub select_limit :
      (p : R → Bool) (n : ℕ) (s : State) (rs : List R) → select p n s ≡ rows rs → length rs ≤ n
  pub select_all_sound :
      (p : R → Bool) (s : State) (rs : List R)
      → select_all p s ≡ rows rs
      → All (λ r. (row_at s (key r) ≡ some r) × (p r ≡ true)) rs
  pub select_all_complete :
      (p : R → Bool) (s : State) (rs : List R) (k : K) (r : R)
      → select_all p s ≡ rows rs
      → row_at s k ≡ some r
      → p r ≡ true
      → any (λ q. same k (key q)) rs ≡ true
  pub row_at-key : (s : State) (k : K) (r : R) → row_at s k ≡ some r → same k (key r) ≡ true
  pub first_found : (k : K) (s : State) (r : R) → first k s ≡ found r → row_at s k ≡ some r
  pub first_missing : (k : K) (s : State) → first k s ≡ missing → row_at s k ≡ none
