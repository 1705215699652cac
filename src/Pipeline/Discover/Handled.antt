-- ===== src/Pipeline/Discover/Handled.antt =====
-- runDiscover: what a flush makes of the references of a batch.
use s3nitor.Prelude.{
  ℕ, suc, ◌+◌, ◌≡◌, refl, sym, subst, ◌++◌, inl, inr, String, Bool-cases, Option, none, some, List,
  [], ◌∷◌, map, length, length-append, arith,
}
use s3nitor.Prelude.Int.{ℤ}
use s3nitor.Scanner.{GoError}
use s3nitor.Records.{RecordTable, seen_file_ids}
use s3nitor.Records.Dedup.{has_id}
use s3nitor.Pipeline.Discover.{
  ObjectRef, Discovered, skip, notify, hand_over, coverage_gap, Moment, id_of, sort_refs, flush,
}
use s3nitor.Pipeline.Discover.Parts.{IsPart, without_middle, refs_of, refs_of-append}
use s3nitor.Pipeline.Discover.Coverage.{
  is_too_large, decide_seen, decide_large, decide_wanted, Answered, Seen-cases,
}

-- The references that were handed over or skipped.
abbrev pub handled : Discovered → ℕ
handled d = length d.jobs + d.skipped

module _ (files : RecordTable) (sha256_hex : String → String) (max_size : ℤ)
    (ctx_err : GoError) where
  -- The loop over a batch, if it returns no error, handles every reference, receives none, and keeps
  -- the jobs in the order of the references.
  abbrev pub HandlesAll : Option GoError × Discovered → Discovered → List ObjectRef → Type 0
  HandlesAll (e, d') d refs = Answered e (
      (handled d' ≡ handled d + length refs)
      × (d'.listed ≡ d.listed)
      × ((rs : List ObjectRef)
          → IsPart (refs_of d.jobs ++ refs) rs
          → IsPart (refs_of d'.jobs ++ []) rs))

  one_more :
      (r : Option GoError × Discovered) (d d' : Discovered) (ref : ObjectRef)
      (refs : List ObjectRef)
      → handled d' ≡ suc (handled d)
      → d'.listed ≡ d.listed
      → ((rs : List ObjectRef)
          → IsPart (refs_of d.jobs ++ ref ∷ refs) rs
          → IsPart (refs_of d'.jobs ++ refs) rs)
      → HandlesAll r d' refs
      → HandlesAll r d (ref ∷ refs)
  one_more (some e, x) d d' ref refs h l f k = tt
  one_more (none, x) d d' ref refs h l f (a, b, g) =
      (omega arith, omega arith, λ rs p. g rs (f rs p))

  sort_refs-HandlesAll :
      (at : Moment files) (known : List String) (n : ℕ) (refs : List ObjectRef) (d : Discovered)
      → HandlesAll (sort_refs files sha256_hex max_size ctx_err at known n refs d) d refs
  unfolding sort_refs skip notify hand_over
  sort_refs-HandlesAll at known n [] d = (omega arith, refl, λ rs p. p)
  sort_refs-HandlesAll at known n (ref ∷ refs) d =
      let here = id_of sha256_hex ref in
      let less = λ (rs : List ObjectRef). without_middle (refs_of d.jobs) ref refs rs in
      let go = sort_refs files sha256_hex max_size ctx_err at known in
      elim (Bool-cases (has_id here known)) [
        | inl old ↦
            rw (decide_seen max_size _ ref old, sort_refs)
              (one_more (go n refs (skip d)) d (skip d) ref refs (omega arith) refl less
                (sort_refs-HandlesAll at known n refs (skip d)))
        | inr new ↦ elim (Bool-cases (is_too_large max_size ref)) [
          | inl big ↦ elim (Bool-cases (at.sends n)) [
            | inr ended ↦ rw (decide_large max_size _ ref new big, ended, sort_refs) tt
            | inl on ↦
                let d' =
                  notify (coverage_gap ref here "exceeds_max_object_size" max_size (at.clock n))
                    (skip d) in
                rw (decide_large max_size _ ref new big, on, sort_refs)
                  (one_more (go (suc n) refs d') d d' ref refs (omega arith) refl less
                    (sort_refs-HandlesAll at known (suc n) refs d'))
          ]
          | inr small ↦ elim (Bool-cases (at.sends n)) [
            | inr ended ↦ rw (decide_wanted max_size _ ref new small, ended, sort_refs) tt
            | inl on ↦
                let d' = hand_over (record { ref = ref; file_id = here }) d in
                rw (decide_wanted max_size _ ref new small, on, sort_refs)
                  (one_more (go (suc n) refs d') d d' ref refs (omega (arith, length-append d.jobs))
                    refl (λ rs p. subst (λ xs. IsPart xs rs) (sym (refs_of-append d.jobs _ refs)) p)
                    (sort_refs-HandlesAll at known (suc n) refs d'))
          ]
        ]
      ]

  pub flush-HandlesAll :
      (at : Moment files) (refs : List ObjectRef) (d : Discovered)
      → HandlesAll (flush files sha256_hex max_size ctx_err at refs d) d refs
  unfolding flush
  flush-HandlesAll at [] d = (omega arith, refl, λ rs p. p)
  flush-HandlesAll at (r ∷ refs) d =
      elim (Seen-cases (seen_file_ids files (map (id_of sha256_hex) (r ∷ refs)) at.records)) [
        | inr (x, e) ↦ rw (e, flush) tt
        | inl (known, e) ↦ rw (e, flush) (sort_refs-HandlesAll at known 0 (r ∷ refs) d)
      ]
