-- ===== src/Pipeline/Discover/Coverage.antt =====
-- runDiscover: what becomes of the references that it is given.
use s3nitor.Prelude.{
  ℕ, suc, ◌≡◌, refl, ◌∙◌, subst, ◌⊎◌, inl, inr, String, str_eq, eq_iff, Bool, true, false, not,
  ◌&&◌, ◌||◌, Bool-cases, Option, none, some, List, [], ◌∷◌, map, any, any-append, arith,
}
use s3nitor.Prelude.Int.{ℤ, pos, ltb_ℤ}
use s3nitor.Prelude.Text.{str_eq_sym}
use s3nitor.Scanner.{GoError}
use s3nitor.Records.{RecordTable, Seen, seen, seen_failed, seen_file_ids}
use s3nitor.Records.Dedup.{has_id, is_recorded, seen_file_ids-Tells}
use s3nitor.Pipeline.Discover.{
  ObjectRef, Job, already_scanned, too_large, wanted, decide, Discovered, skip, notify, hand_over,
  coverage_gap, Moment, id_of, sort_refs, flush,
}

-- The object is larger than what is to be scanned; a bound that is not positive is none.
abbrev pub is_too_large : ℤ → ObjectRef → Bool
is_too_large max_size ref = ltb_ℤ (pos 0) max_size && ltb_ℤ max_size ref.size

pub decide_seen : (m : ℤ) (b : Bool) (r : ObjectRef) → b ≡ true → decide m b r ≡ already_scanned
unfolding decide
decide_seen m b r h = rw h refl

pub decide_large :
    (m : ℤ) (b : Bool) (r : ObjectRef)
    → b ≡ false
    → is_too_large m r ≡ true
    → decide m b r ≡ too_large
unfolding decide
decide_large m b r h k = rw (h, k) refl

pub decide_wanted :
    (m : ℤ) (b : Bool) (r : ObjectRef)
    → b ≡ false
    → is_too_large m r ≡ false
    → decide m b r ≡ wanted
unfolding decide
decide_wanted m b r h k = rw (h, k) refl

abbrev pub Answered : Option GoError → Type 0 → Type 0
Answered none P = P
Answered (some e) P = Unit

pub Seen-cases :
    (a : Seen) → ((ids : List String) × (a ≡ seen ids)) ⊎ ((e : GoError) × (a ≡ seen_failed e))
Seen-cases (seen ids) = inl (ids, refl)
Seen-cases (seen_failed e) = inr (e, refl)

regrouped :
    (e : Option GoError) (x a b c q : Bool)
    → c ≡ (a || b)
    → Answered e (x ≡ (c || q))
    → Answered e (x ≡ (a || (b || q)))
regrouped none x a b c q h k = ground arith
regrouped (some e) x a b c q h k = tt

module _ (files : RecordTable) (sha256_hex : String → String) (max_size : ℤ)
    (ctx_err : GoError) where
  abbrev pub names : String → Job → Bool
  names id j = str_eq j.file_id id

  -- The reference is of the object, and small enough.
  abbrev pub is_scannable : String → ObjectRef → Bool
  is_scannable id r = str_eq (id_of sha256_hex r) id && not (is_too_large max_size r)

  abbrev is_new : List String → String → ObjectRef → Bool
  is_new known id r = is_scannable id r && not (has_id (id_of sha256_hex r) known)

  -- The jobs for an object after the loop over `refs` from `d`.
  abbrev JobsAfter :
      Moment files → List String → ℕ → List ObjectRef → Discovered → String → Bool → Type 0
  JobsAfter at known n refs d id b =
      let (err, d') = sort_refs files sha256_hex max_size ctx_err at known n refs d in
      Answered err (any (names id) d'.jobs ≡ b)

  onward :
      (at : Moment files) (known : List String) (n : ℕ) (refs : List ObjectRef) (d d' : Discovered)
      (id : String) (ref : ObjectRef)
      → any (names id) d'.jobs ≡ (any (names id) d.jobs || is_new known id ref)
      → JobsAfter at known n refs d' id (any (names id) d'.jobs || any (is_new known id) refs)
      → JobsAfter at known n refs d' id
          (any (names id) d.jobs || (is_new known id ref || any (is_new known id) refs))
  onward at known n refs d d' id ref h k =
      regrouped _ _ (any (names id) d.jobs) (is_new known id ref) (any (names id) d'.jobs)
        (any (is_new known id) refs) h k

  sort_refs-jobs :
      (at : Moment files) (known : List String) (n : ℕ) (refs : List ObjectRef) (d : Discovered)
      (id : String)
      → JobsAfter at known n refs d id (any (names id) d.jobs || any (is_new known id) refs)
  unfolding sort_refs skip notify hand_over
  sort_refs-jobs at known n [] d id = ground arith
  sort_refs-jobs at known n (ref ∷ refs) d id =
      let here = id_of sha256_hex ref in
      elim (Bool-cases (has_id here known)) [
        | inl old ↦
            rw (decide_seen max_size _ ref old, sort_refs)
              (onward at known n refs d (skip d) id ref (ground arith)
                (sort_refs-jobs at known n refs (skip d) id))
        | inr new ↦ elim (Bool-cases (is_too_large max_size ref)) [
          | inl big ↦ elim (Bool-cases (at.sends n)) [
            | inr ended ↦ rw (decide_large max_size _ ref new big, ended, sort_refs) tt
            | inl on ↦
                rw (decide_large max_size _ ref new big, on, sort_refs)
                  (onward at known (suc n) refs d _ id ref (ground arith) (
                    sort_refs-jobs at known (suc n) refs
                      (notify
                        (coverage_gap ref here "exceeds_max_object_size" max_size (at.clock n))
                        (skip d))
                      id))
          ]
          | inr small ↦ elim (Bool-cases (at.sends n)) [
            | inr ended ↦ rw (decide_wanted max_size _ ref new small, ended, sort_refs) tt
            | inl on ↦
                rw (decide_wanted max_size _ ref new small, on, sort_refs)
                  (onward at known (suc n) refs d _ id ref
                    (any-append (names id) d.jobs _ ∙ ground arith)
                    (sort_refs-jobs at known (suc n) refs
                      (hand_over (record { ref = ref; file_id = here }) d) id))
          ]
        ]
      ]

  is_new_eq :
      (known : List String) (id : String) (r : ObjectRef)
      → is_new known id r ≡ (is_scannable id r && not (has_id id known))
  is_new_eq known id r = elim (Bool-cases (str_eq (id_of sha256_hex r) id)) [
    | inr apart ↦ rw apart refl
    | inl same ↦ rw ((eq_iff (id_of sha256_hex r) id).0 same) refl
  ]

  any_new :
      (known : List String) (id : String) (refs : List ObjectRef)
      → any (is_new known id) refs ≡ (any (is_scannable id) refs && not (has_id id known))
  any_new known id [] = refl
  any_new known id (r ∷ refs) = ground (arith, is_new_eq known id r, any_new known id refs)

  scannable_asked :
      (id : String) (refs : List ObjectRef)
      → has_id id (map (id_of sha256_hex) refs) ≡ false
      → any (is_scannable id) refs ≡ false
  scannable_asked id [] h = refl
  scannable_asked id (r ∷ refs) h =
      let e = str_eq_sym id (id_of sha256_hex r) in ground (arith, scannable_asked id refs)

  -- What the batched query tells of the new objects in a batch.
  new_is_unrecorded :
      (s : files.State) (refs : List ObjectRef) (known : List String) (id : String)
      → seen_file_ids files (map (id_of sha256_hex) refs) s ≡ seen known
      → any (is_new known id) refs
        ≡ (any (is_scannable id) refs && not (is_recorded (files.row_at s id)))
  new_is_unrecorded s refs known id e =
      any_new known id refs ∙ elim (Bool-cases (has_id id (map (id_of sha256_hex) refs))) [
        | inr unasked ↦ rw (scannable_asked id refs unasked) refl
        | inl asked ↦
            let told =
              rw e at (seen_file_ids-Tells files s (map (id_of sha256_hex) refs) id asked) in
            rw told refl
      ]

  -- A flush that returns no error hands an object to the fetchers exactly if the batch has a reference
  -- of it that is within the size bound, and the object has no file record: no new object is skipped,
  -- and no recorded one is fetched again, although 500 ids are answered by one query.
  pub flush_hands_over_new :
      (at : Moment files) (refs : List ObjectRef) (d : Discovered) (id : String)
      → let (err, d') = flush files sha256_hex max_size ctx_err at refs d in
        Answered err (
          any (names id) d'.jobs ≡ (
            any (names id) d.jobs
            || any (is_scannable id) refs && not (is_recorded (files.row_at at.records id))))
  unfolding flush
  flush_hands_over_new at [] d id = ground arith
  flush_hands_over_new at (r ∷ refs) d id =
      elim (Seen-cases (seen_file_ids files (map (id_of sha256_hex) (r ∷ refs)) at.records)) [
        | inr (x, e) ↦ rw (e, flush) tt
        | inl (known, e) ↦
            rw (e, flush)
              (subst (λ b. JobsAfter at known 0 (r ∷ refs) d id (any (names id) d.jobs || b))
                (new_is_unrecorded at.records (r ∷ refs) known id e)
                (sort_refs-jobs at known 0 (r ∷ refs) d id))
      ]
