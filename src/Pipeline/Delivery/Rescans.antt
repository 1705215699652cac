-- ===== src/Pipeline/Delivery/Rescans.antt =====
-- pipeline.go, from the publish stage of one run to the discovery of a later one: which objects are
-- fetched again.
use s3nitor.Prelude.{
  ℕ, suc, ◌≡◌, refl, sym, ap, subst, ◌∙◌, inl, inr, String, Bool, true, not, ◌&&◌, ◌||◌,
  Option-cases, none, some, List, [], ◌∷◌, ◌++◌, any, any-append, arith, eq_of_iff,
}
use s3nitor.Prelude.Int.{ℤ}
use s3nitor.Scanner.{Finding, GoError, Time}
use s3nitor.Config.{Config}
use s3nitor.Table.{done}
use s3nitor.Ledger.{TaskTable}
use s3nitor.Records.{FileRecord, RecordTable, upsert_file_record}
use s3nitor.Records.Dedup.{is_recorded}
use s3nitor.Pipeline.Publish.{Flush, Event, empty_buffer, run_publish}
use s3nitor.Pipeline.Flush.{Reporter, send, Store, flush}
use s3nitor.Pipeline.Flush.Verdicts.{is_verdict_on}
use s3nitor.Pipeline.Flush.Accepted.{flush_records_only_accepted, flush_keeps_and_records}
use s3nitor.Pipeline.Discover.{ObjectRef, Moment, Discovered}
use s3nitor.Pipeline.Discover as Discover
use s3nitor.Pipeline.Discover.Coverage.{Answered, names, is_scannable, flush_hands_over_new}
use s3nitor.Pipeline.Delivery.{flush_batches, publish_stage}

or_first : (a b : Bool) → a ≡ true → (a || b) ≡ true
or_first a b h = ground arith

or_second : (a b : Bool) → b ≡ true → (a || b) ≡ true
or_second a b h = ground arith

or_assoc : (a b c : Bool) → ((a || b) || c) ≡ (a || (b || c))
or_assoc a b c = ground arith

module _ (files : RecordTable) (tasks : TaskTable) {S : Type 0} (rep : Reporter S)
    (clock : ℕ → ℕ → Time) where
  -- The documents of the batches that the sink took without an error.
  abbrev pub taken : List Flush → S → List Finding
  taken [] sink = []
  taken (b ∷ bs) sink =
      let rest = taken bs (send rep b.batch sink).1 in
      elim (send rep b.batch sink).0 [ some e ↦ rest | none ↦ b.batch ++ rest ]

  abbrev has_record : String → Store files tasks → Bool
  has_record id s = is_recorded (files.row_at s.records id)

  flush_refused :
      (c : ℕ → Time) (batch : List Finding) (s : Store files tasks) (sink : S) (e : GoError)
      → (send rep batch sink).0 ≡ some e
      → flush files tasks rep c batch s sink ≡ (s, (send rep batch sink).1)
  unfolding flush
  flush_refused c batch s sink e h = rw (h, flush) refl

  flush_parts :
      (c : ℕ → Time) (batch : List Finding) (s : Store files tasks) (sink : S)
      → flush files tasks rep c batch s sink
        ≡ ((flush files tasks rep c batch s sink).0, (send rep batch sink).1)
  unfolding flush
  flush_parts c batch s sink = elim (Option-cases (send rep batch sink).0) [
    | inl h ↦ rw (h, flush) refl
    | inr (e, h) ↦ rw (h, flush) refl
  ]

  taken_more :
      (b : Flush) (bs : List Flush) (sink : S)
      → (send rep b.batch sink).0 ≡ none
      → taken (b ∷ bs) sink ≡ b.batch ++ taken bs (send rep b.batch sink).1
  taken_more b bs sink h = rw (h, taken) refl

  taken_same :
      (b : Flush) (bs : List Flush) (sink : S) (e : GoError)
      → (send rep b.batch sink).0 ≡ some e
      → taken (b ∷ bs) sink ≡ taken bs (send rep b.batch sink).1
  taken_same b bs sink e h = rw (h, taken) refl

  module _
      (writes : (r : FileRecord) (now : Time) (x : files.State)
        → (y : files.State) × (n : ℕ) × (upsert_file_record files r now x ≡ done y n)) where
    flush_taken :
        (c : ℕ → Time) (batch : List Finding) (s : Store files tasks) (sink : S) (id : String)
        → (send rep batch sink).0 ≡ none
        → has_record id (flush files tasks rep c batch s sink).0
          ≡ (has_record id s || any (is_verdict_on id) batch)
    flush_taken c batch s sink id h =
        eq_of_iff _ _
          (λ m. elim (flush_records_only_accepted files tasks rep c batch s sink id ("", "")).0 [
            | inl same ↦ or_first _ _ (ap is_recorded (sym same) ∙ m)
            | inr (taken', v) ↦ or_second _ _ v
          ])
          (λ m. flush_keeps_and_records files tasks rep c batch s sink id writes h m)

    flush_batches-records :
        (n : ℕ) (bs : List Flush) (s : Store files tasks) (sink : S) (id : String)
        → has_record id (flush_batches files tasks rep clock n bs s sink).0
          ≡ (has_record id s || any (is_verdict_on id) (taken bs sink))
    unfolding flush_batches
    flush_batches-records n [] s sink id = ground arith
    flush_batches-records n (b ∷ bs) s sink id =
        let s' = (flush files tasks rep (clock n) b.batch s sink).0 in
        let sink' = (send rep b.batch sink).1 in
        let go = λ (x : Store files tasks × S).
          has_record id (flush_batches files tasks rep clock (suc n) bs x.0 x.1).0 in
        elim (Option-cases (send rep b.batch sink).0) [
          | inr (e, h) ↦
              ap go (flush_refused (clock n) b.batch s sink e h)
              ∙ flush_batches-records (suc n) bs s sink' id
              ∙ ap (λ fs. has_record id s || any (is_verdict_on id) fs)
                  (sym (taken_same b bs sink e h))
          | inl h ↦
              ap go (flush_parts (clock n) b.batch s sink)
              ∙ flush_batches-records (suc n) bs s' sink' id
              ∙ ap (λ x. x || any (is_verdict_on id) (taken bs sink'))
                  (flush_taken (clock n) b.batch s sink id h)
              ∙ or_assoc (has_record id s) (any (is_verdict_on id) b.batch)
                  (any (is_verdict_on id) (taken bs sink'))
              ∙ ap (◌||◌ (has_record id s))
                  (sym (any-append (is_verdict_on id) b.batch (taken bs sink')))
              ∙ ap (λ fs. has_record id s || any (is_verdict_on id) fs)
                  (sym (taken_more b bs sink h))
        ]

    -- Where the database takes every file record: after the publish stage of a run, whatever the
    -- sink refused and however documents and timeouts mixed, a flush of a later discovery that
    -- returns no error hands an object to the fetchers exactly if its batch has a small enough
    -- reference of it, the object had no file record before the run, and no batch that the sink
    -- took in the run has a verdict on it.
    pub rescans_unpublished :
        (cfg : Config) (es : List Event) (s : Store files tasks) (sink : S)
        (sha256_hex : String → String) (max_size : ℤ) (ctx_err : GoError) (sends : ℕ → Bool)
        (at : ℕ → Time) (refs : List ObjectRef) (d : Discovered) (id : String)
        → let (after, sink') = publish_stage files tasks rep clock cfg es s sink in
          let (err, d') =
            Discover.flush files sha256_hex max_size ctx_err
              (record { records = after.records; sends = sends; clock = at })
              refs
              d in
          Answered err (
            any (names files sha256_hex max_size ctx_err id) d'.jobs ≡ (
              any (names files sha256_hex max_size ctx_err id) d.jobs
              || any (is_scannable files sha256_hex max_size ctx_err id) refs
                && not (
                    is_recorded (files.row_at s.records id)
                    || any (is_verdict_on id) (taken (run_publish cfg empty_buffer es).1 sink))))
    unfolding publish_stage
    rescans_unpublished cfg es s sink sha256_hex max_size ctx_err sends at refs d id =
        let after = (publish_stage files tasks rep clock cfg es s sink).0 in
        let moment : Moment files = record { records = after.records; sends = sends; clock = at } in
        subst
          (λ b.
            let (err, d') = Discover.flush files sha256_hex max_size ctx_err moment refs d in
            Answered err (
              any (names files sha256_hex max_size ctx_err id) d'.jobs ≡ (
                any (names files sha256_hex max_size ctx_err id) d.jobs
                || any (is_scannable files sha256_hex max_size ctx_err id) refs && not b)))
          (flush_batches-records 0 (run_publish cfg empty_buffer es).1 s sink id)
          (flush_hands_over_new files sha256_hex max_size ctx_err moment refs d id)
