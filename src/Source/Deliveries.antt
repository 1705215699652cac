-- ===== src/Source/Deliveries.antt =====
-- internal/source/event.go: when a delivery is acknowledged, against when its references are sent.
use s3nitor.Prelude.{
  ℕ, suc, ◌≡◌, refl, sym, ap, ◌⊎◌, inl, inr, Bool, Bool-cases, List, [], ◌∷◌, ◌++◌, map,
  append_assoc,
}
use s3nitor.Pipeline.Discover.{ObjectRef}
use s3nitor.Source.{
  Decoded, decoded, undecodable, Act, sent, acked, all_sent, stopped, hand_on, items, after_sends,
}

-- The references that a delivery carries.
abbrev refs_of : Decoded → List ObjectRef
refs_of (decoded refs) = refs
refs_of (undecodable e) = []

-- Deliveries that are handled whole, from position `i`: the references of each, then its
-- acknowledgement.
abbrev pub handled_whole : ℕ → List Decoded → List Act
handled_whole i [] = []
handled_whole i (d ∷ ds) = map sent (refs_of d) ++ acked i ∷ handled_whole (suc i) ds

hand_on-cases :
    (sends : ℕ → Bool) (n : ℕ) (refs : List ObjectRef)
    → ((hand_on sends n refs).1 ≡ all_sent) × ((hand_on sends n refs).0 ≡ map sent refs)
      ⊎ ((hand_on sends n refs).1 ≡ stopped)
        × ((some' : List ObjectRef) × (rest : List ObjectRef) × (refs ≡ some' ++ rest)
            × ((hand_on sends n refs).0 ≡ map sent some'))
unfolding hand_on
hand_on-cases sends n [] = inl (refl, refl)
hand_on-cases sends n (ref ∷ refs) = elim (Bool-cases (sends n)) [
  | inr ended ↦ rw (ended, hand_on) (inr (refl, ([], ref ∷ refs, refl, refl)))
  | inl on ↦ elim (hand_on-cases sends (suc n) refs) [
    | inl (e, h) ↦ rw (on, hand_on) (inl (e, ap (◌∷◌ (sent ref)) h))
    | inr (e, (xs, ys, p, h)) ↦
        rw (on, hand_on) (inr (e, (ref ∷ xs, ys, ap (◌∷◌ ref) p, ap (◌∷◌ (sent ref)) h)))
  ]
]

-- Whenever the context ends, the deliveries up to some point have been handled whole, each
-- acknowledged after the last of its references was sent (an undecodable one at once), and of the
-- next one some references were sent and it is not acknowledged; nothing behind it was touched.
pub items_acknowledge_what_was_sent :
    (sends : ℕ → Bool) (i n : ℕ) (ds : List Decoded)
    → (whole : List Decoded) × (behind : List Decoded) × (begun : List ObjectRef) × (rest : List
        ObjectRef)
      × (ds ≡ whole ++ behind)
      × ((behind ≡ []) × (begun ≡ [])
          ⊎ ((later : List Decoded) × (behind ≡ decoded (begun ++ rest) ∷ later)))
      × (items sends i n ds ≡ handled_whole i whole ++ map sent begun)
unfolding items
items_acknowledge_what_was_sent sends i n [] = ([], [], [], [], refl, inl (refl, refl), refl)
items_acknowledge_what_was_sent sends i n (undecodable e ∷ ds) =
    let (whole, behind, begun, rest, split, next, acts) =
      items_acknowledge_what_was_sent sends (suc i) n ds in
    (
      undecodable e ∷ whole,
      behind,
      begun,
      rest,
      ap (◌∷◌ (undecodable e)) split,
      next,
      ap (◌∷◌ (acked i)) acts,
    )
items_acknowledge_what_was_sent sends i n (decoded refs ∷ ds) = elim (hand_on-cases sends n refs) [
  | inr (e, (xs, ys, p, h)) ↦
      ([], decoded refs ∷ ds, xs, ys, refl, inr (ds, ap (λ r. decoded r ∷ ds) p), rw (e, items) h)
  | inl (e, h) ↦
      let (whole, behind, begun, rest, split, next, acts) =
        items_acknowledge_what_was_sent sends (suc i) (after_sends n refs) ds in
      (
        decoded refs ∷ whole,
        behind,
        begun,
        rest,
        ap (◌∷◌ (decoded refs)) split,
        next,
        rw (e, items, h, acts) (sym (append_assoc (map sent refs) _ (map sent begun))),
      )
]
