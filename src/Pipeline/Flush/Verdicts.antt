-- ===== src/Pipeline/Flush/Verdicts.antt =====
-- flush: which documents are verdicts, and what is recorded of those behind the first.
use s3nitor.Prelude.{
  ◌≡◌, ◌∙◌, ◌⊎◌, inl, inr, String, str_eq, eq_iff, Bool, true, false, not, ◌&&◌, ◌||◌, Bool-cases,
  Option, none, List, ◌∷◌, any, arith, subst,
}
use s3nitor.Prelude.Text.{str_eq_sym}
use s3nitor.Scanner.{Finding, GoError}
use s3nitor.Ledger.{TaskKey, same_task}
use s3nitor.Pipeline.Flush.{is_left_out}

-- The document is a verdict on the object: it is not the notice that the object is too large.
abbrev pub is_verdict_on : String → Finding → Bool
is_verdict_on id f = str_eq f.file_id id && not (str_eq f.scanner "size_gate")

-- The document is the verdict of a task.
abbrev pub is_verdict_of : TaskKey → Finding → Bool
is_verdict_of k f = same_task (f.file_id, f.scanner) k && not (str_eq f.scanner "size_gate")

abbrev pub Kept {ℓ} : {A : Type ℓ} → A → A → Bool → Type ℓ
Kept a b p = (a ≡ b) ⊎ (p ≡ true)

pub Kept-trans {ℓ} :
    {A : Type ℓ} (a b c : A) (p q : Bool) → Kept a b q → Kept b c p → Kept a c (p || q)
Kept-trans a b c p q (inl x) (inl y) = inl (x ∙ y)
Kept-trans a b c p q (inr x) h = inr (ground arith)
Kept-trans a b c p q (inl x) (inr y) = inr (ground arith)

pub Kept-weaken {ℓ} : {A : Type ℓ} (a b : A) (p q : Bool) → Kept a b q → Kept a b (p || q)
Kept-weaken a b p q (inl x) = inl x
Kept-weaken a b p q (inr x) = inr (ground arith)

pub Kept-verdict {ℓ} :
    {A : Type ℓ} (a b : A) (p g : Bool) → g ≡ false → Kept a b p → Kept a b (p && not g)
Kept-verdict a b p g h (inl x) = inl x
Kept-verdict a b p g h (inr x) = inr (ground arith)

pub not_gate :
    (recorded : List String) (f : Finding)
    → is_left_out recorded f ≡ false
    → str_eq f.scanner "size_gate" ≡ false
unfolding is_left_out
not_gate recorded f h = ground arith

pub and_taken {ℓ} :
    {A : Type ℓ} {a b : A} {p : Bool} (e : Option GoError)
    → e ≡ none
    → Kept a b p
    → (a ≡ b) ⊎ ((e ≡ none) × (p ≡ true))
and_taken e taken (inl x) = inl x
and_taken e taken (inr x) = inr (taken, x)

-- A document that is left out adds nothing: its object was met before, or it is no verdict.
pub left_out_met :
    (recorded : List String) (f : Finding) (fs : List Finding) (id : String) (b : Bool)
    → is_left_out recorded f ≡ true
    → (any (str_eq id) recorded ≡ true → b ≡ true)
    → (b || any (is_verdict_on id) (f ∷ fs)) ≡ true
    → (b || any (is_verdict_on id) fs) ≡ true
unfolding is_left_out
left_out_met recorded f fs id b out met h = elim (Bool-cases (str_eq f.file_id id)) [
  | inr apart ↦ rw apart at h
  | inl same ↦
      let e = (eq_iff f.file_id id).0 same in
      let out' : (any (str_eq id) recorded || str_eq f.scanner "size_gate") ≡ true =
        subst (λ x. (any (str_eq x) recorded || str_eq f.scanner "size_gate") ≡ true) e out in
      ground (arith, met)
]

-- An object that was met before or is met now.
pub met_or_now :
    (recorded : List String) (f : Finding) (id : String) (b : Bool)
    → (any (str_eq id) recorded ≡ true → b ≡ true)
    → any (str_eq id) (f.file_id ∷ recorded) ≡ true
    → (b || str_eq f.file_id id) ≡ true
met_or_now recorded f id b met m = rw (str_eq_sym f.file_id id) (ground (arith, met))

-- A verdict that is recorded now, or that stands behind.
pub now_or_later :
    (f : Finding) (fs : List Finding) (id : String) (b b' : Bool)
    → ((b || str_eq f.file_id id) ≡ true → b' ≡ true)
    → (b || any (is_verdict_on id) (f ∷ fs)) ≡ true
    → (b' || any (is_verdict_on id) fs) ≡ true
now_or_later f fs id b b' one h = ground (arith, one)
