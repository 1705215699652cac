-- ===== src/Pipeline/Discover/Parts.antt =====
-- runDiscover: a list that has some of another's elements, in their order.
use s3nitor.Prelude.{◌≡◌, refl, ap, ◌⊎◌, inl, inr, List, [], ◌∷◌, ◌++◌}
use s3nitor.Pipeline.Discover.{ObjectRef, Job}

abbrev pub IsPart : List ObjectRef → List ObjectRef → Type 0
IsPart [] ys = Unit
IsPart (x ∷ xs) [] = ⊥
IsPart (x ∷ xs) (y ∷ ys) = ((x ≡ y) × IsPart xs ys) ⊎ IsPart (x ∷ xs) ys

weaken :
    (xs : List ObjectRef) (y : ObjectRef) (ys : List ObjectRef) → IsPart xs ys → IsPart xs (y ∷ ys)
weaken [] y ys p = tt
weaken (x ∷ xs) y ys p = inr p

pub without_middle :
    (xs : List ObjectRef) (m : ObjectRef) (ms ys : List ObjectRef)
    → IsPart (xs ++ m ∷ ms) ys
    → IsPart (xs ++ ms) ys
without_middle [] m ms [] p = absurd p
without_middle [] m ms (y ∷ ys) (inl (e, p)) = weaken ms y ys p
without_middle [] m ms (y ∷ ys) (inr p) = weaken ms y ys (without_middle [] m ms ys p)
without_middle (x ∷ xs) m ms [] p = absurd p
without_middle (x ∷ xs) m ms (y ∷ ys) (inl (e, p)) = inl (e, without_middle xs m ms ys p)
without_middle (x ∷ xs) m ms (y ∷ ys) (inr p) = inr (without_middle (x ∷ xs) m ms ys p)

pub with_last :
    (xs ys : List ObjectRef) (r : ObjectRef) → IsPart xs ys → IsPart (xs ++ r ∷ []) (ys ++ r ∷ [])
with_last [] [] r p = inl (refl, tt)
with_last [] (y ∷ ys) r p = inr (with_last [] ys r tt)
with_last (x ∷ xs) [] r p = absurd p
with_last (x ∷ xs) (y ∷ ys) r (inl (e, p)) = inl (e, with_last xs ys r p)
with_last (x ∷ xs) (y ∷ ys) r (inr p) = inr (with_last (x ∷ xs) ys r p)

-- The references of some jobs.
abbrev pub refs_of : List Job → List ObjectRef
refs_of [] = []
refs_of (j ∷ js) = j.ref ∷ refs_of js

pub refs_of-append :
    (js : List Job) (j : Job) (rs : List ObjectRef)
    → refs_of (js ++ j ∷ []) ++ rs ≡ refs_of js ++ j.ref ∷ rs
refs_of-append [] j rs = refl
refs_of-append (k ∷ js) j rs = ap (◌∷◌ k.ref) (refs_of-append js j rs)
