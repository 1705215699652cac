-- ===== src/Pipeline/Discover/Accounts.antt =====
-- runDiscover: the accounts of a whole run.
use mathlib.Core.Bool.{false≢true}
use s3nitor.Prelude.{
  ◌+◌, ◌≡◌, refl, sym, ap, ◌∙◌, subst, ◌++◌, append_assoc, append-nil, inl, inr, String, Bool, true,
  false, Bool-cases, Option, none, some, List, [], ◌∷◌, length, length-append, leb, arith,
}
use s3nitor.Prelude.Int.{ℤ}
use s3nitor.Scanner.{GoError}
use s3nitor.Records.{RecordTable}
use s3nitor.Pipeline.Discover.{
  ObjectRef, Discovered, Moment, Event, arrive, timeout, closed, cancelled, Stage, flush, flush_all,
  listed_one, discover_step, after_step, run_discover, dedup_batch,
}
use s3nitor.Pipeline.Discover.Parts.{IsPart, with_last, refs_of}
use s3nitor.Pipeline.Discover.Coverage.{Answered}
use s3nitor.Pipeline.Discover.Handled.{handled, HandlesAll, flush-HandlesAll}

-- Of the references that have arrived, the stage has handled those that do not wait in the batch, and
-- the jobs and the batch are in the order of the arrivals.
abbrev IsBalanced : List ObjectRef → Stage → Type 0
IsBalanced rs st =
    (st.discovered.listed ≡ length rs)
    × (handled st.discovered + length st.batch ≡ length rs)
    × IsPart (refs_of st.discovered.jobs ++ st.batch) rs

-- The stream ended before the context did.
abbrev is_drained : {files : RecordTable} → List (Moment files × Event) → Bool
is_drained [] = false
is_drained ((at, closed) ∷ es) = true
is_drained ((at, cancelled) ∷ es) = false
is_drained ((at, arrive r) ∷ es) = is_drained es
is_drained ((at, timeout) ∷ es) = is_drained es

-- The references that arrive before the stream or the context ends.
abbrev pub arrived : {files : RecordTable} → List (Moment files × Event) → List ObjectRef
arrived [] = []
arrived ((at, closed) ∷ es) = []
arrived ((at, cancelled) ∷ es) = []
arrived ((at, arrive r) ∷ es) = r ∷ arrived es
arrived ((at, timeout) ∷ es) = arrived es

-- The stage before the first reference.
abbrev pub empty_stage : Stage
empty_stage = record {
  batch = [];
  timer = false;
  discovered = record { jobs = []; notices = []; listed = 0; skipped = 0 };
}

module _ (files : RecordTable) (sha256_hex : String → String) (max_size : ℤ)
    (ctx_err : GoError) where
  -- A step that returns no error keeps the balance; a flush leaves nothing in the batch.
  abbrev StepBalanced : List ObjectRef → Option GoError × Stage → Type 0
  StepBalanced rs (e, st) = Answered e (IsBalanced rs st)

  flush_all-IsBalanced :
      (at : Moment files) (rs : List ObjectRef) (st : Stage)
      → IsBalanced rs st
      → let (e, st') = flush_all files sha256_hex max_size ctx_err at st in
        Answered e (IsBalanced rs st' × (st'.batch ≡ []))
  unfolding flush_all
  flush_all-IsBalanced at rs st h =
      settled (flush files sha256_hex max_size ctx_err at st.batch st.discovered) st h
        (flush-HandlesAll files sha256_hex max_size ctx_err at st.batch st.discovered)
    where
      settled :
          (r : Option GoError × Discovered) (st : Stage)
          → IsBalanced rs st
          → HandlesAll files sha256_hex max_size ctx_err r st.discovered st.batch
          → let st' : Stage = record { batch = []; timer = false; discovered = r.1 } in
            Answered r.0 (IsBalanced rs st' × (st'.batch ≡ []))
      settled (some e, d) st h k = tt
      settled (none, d) st (l, n, p) (a, b, g) = ((b ∙ l, omega arith, g rs p), refl)

  flush_all-StepBalanced :
      (at : Moment files) (rs : List ObjectRef) (st : Stage)
      → IsBalanced rs st
      → StepBalanced rs (flush_all files sha256_hex max_size ctx_err at st)
  flush_all-StepBalanced at rs st h =
      first (flush_all files sha256_hex max_size ctx_err at st) (flush_all-IsBalanced at rs st h)
    where
      first :
          (r : Option GoError × Stage)
          → Answered r.0 (IsBalanced rs r.1 × (r.1.batch ≡ []))
          → StepBalanced rs r
      first (some e, st) k = tt
      first (none, st) k = k.0

  listed_one-IsBalanced :
      (ref : ObjectRef) (rs : List ObjectRef) (st : Stage)
      → IsBalanced rs st
      → IsBalanced (rs ++ ref ∷ []) (listed_one ref st)
  unfolding listed_one
  listed_one-IsBalanced ref rs st (l, n, p) = (
    omega (arith, length-append rs (ref ∷ [])),
    omega (arith, length-append rs (ref ∷ []), length-append st.batch (ref ∷ [])),
    subst (λ xs. IsPart xs (rs ++ ref ∷ []))
        (append_assoc (refs_of st.discovered.jobs) st.batch (ref ∷ []))
        (with_last (refs_of st.discovered.jobs ++ st.batch) rs ref p),
  )

  arrive-StepBalanced :
      (at : Moment files) (ref : ObjectRef) (rs : List ObjectRef) (st : Stage)
      → IsBalanced rs st
      → StepBalanced
          (rs ++ ref ∷ [])
          (discover_step files sha256_hex max_size ctx_err at st (arrive ref))
  unfolding discover_step
  arrive-StepBalanced at ref rs st h =
      let h' = listed_one-IsBalanced ref rs st h in
      elim (Bool-cases (leb dedup_batch (length (listed_one ref st).batch))) [
        | inl full ↦ rw full (flush_all-StepBalanced at (rs ++ ref ∷ []) (listed_one ref st) h')
        | inr room ↦ rw room h'
      ]

  timeout-StepBalanced :
      (at : Moment files) (rs : List ObjectRef) (st : Stage)
      → IsBalanced rs st
      → StepBalanced rs (discover_step files sha256_hex max_size ctx_err at st timeout)
  unfolding discover_step
  timeout-StepBalanced at rs st h = elim (Bool-cases st.timer) [
    | inl on ↦ simp on (flush_all-StepBalanced at rs st h)
    | inr off ↦ simp off h
  ]

  -- All that arrived was accounted for.
  abbrev AllHandled : List ObjectRef → Option GoError × Stage → Type 0
  AllHandled rs (e, st) = Answered e (
      (st.discovered.listed ≡ length rs)
      × (length st.discovered.jobs + st.discovered.skipped ≡ length rs)
      × IsPart (refs_of st.discovered.jobs) rs)

  closed-AllHandled :
      (at : Moment files) (rs : List ObjectRef) (st : Stage)
      → IsBalanced rs st
      → AllHandled rs (flush_all files sha256_hex max_size ctx_err at st)
  closed-AllHandled at rs st h =
      settled (flush_all files sha256_hex max_size ctx_err at st) (flush_all-IsBalanced at rs st h)
    where
      settled :
          (r : Option GoError × Stage)
          → Answered r.0 (IsBalanced rs r.1 × (r.1.batch ≡ []))
          → AllHandled rs r
      settled (some e, st) k = tt
      settled (none, st) ((l, n, p), empty) = (
        l,
        omega (arith, ap length empty),
        subst (λ xs. IsPart xs rs)
            (ap (◌++◌ (refs_of st.discovered.jobs)) empty ∙ append-nil (refs_of st.discovered.jobs))
            p,
      )

  after_step-AllHandled :
      (rs all : List ObjectRef) (r : Option GoError × Stage) (rest : Stage → Option GoError × Stage)
      → StepBalanced rs r
      → ((st : Stage) → IsBalanced rs st → AllHandled all (rest st))
      → AllHandled all (after_step r rest)
  unfolding after_step
  after_step-AllHandled rs all (some e, st) rest h k = tt
  after_step-AllHandled rs all (none, st) rest h k = k st h

  run-AllHandled :
      (es : List (Moment files × Event)) (rs : List ObjectRef) (st : Stage)
      → is_drained es ≡ true
      → IsBalanced rs st
      → AllHandled (rs ++ arrived es) (run_discover files sha256_hex max_size ctx_err es st)
  unfolding run_discover discover_step
  run-AllHandled [] rs st d h = absurd (false≢true d)
  run-AllHandled ((at, closed) ∷ es) rs st d h =
      subst (λ xs. AllHandled xs (flush_all files sha256_hex max_size ctx_err at st))
        (sym (append-nil rs)) (closed-AllHandled at rs st h)
  run-AllHandled ((at, cancelled) ∷ es) rs st d h = absurd (false≢true d)
  run-AllHandled ((at, timeout) ∷ es) rs st d h =
      after_step-AllHandled rs (rs ++ arrived es) _
        (run_discover files sha256_hex max_size ctx_err es) (timeout-StepBalanced at rs st h)
        (λ st' h'. run-AllHandled es rs st' d h')
  run-AllHandled ((at, arrive r) ∷ es) rs st d h =
      after_step-AllHandled (rs ++ r ∷ []) (rs ++ r ∷ arrived es) _
        (run_discover files sha256_hex max_size ctx_err es) (arrive-StepBalanced at r rs st h)
        (λ st' h'.
          subst (λ xs. AllHandled xs (run_discover files sha256_hex max_size ctx_err es st'))
            (append_assoc rs (r ∷ []) (arrived es)) (run-AllHandled es (rs ++ r ∷ []) st' d h'))

  -- When the stream of references ends and discovery returns no error, it has listed every reference
  -- that arrived, whatever timeouts and full batches came between, and each was handed to the fetchers
  -- or counted as skipped: none is left in a batch that was never flushed. The references handed over
  -- are some of those that arrived, in their order and none more often than it arrived.
  pub run_discover_accounts_for_all :
      (es : List (Moment files × Event))
      → is_drained es ≡ true
      → let (err, st) = run_discover files sha256_hex max_size ctx_err es empty_stage in
        Answered err (
          (st.discovered.listed ≡ length (arrived es))
          × (length st.discovered.jobs + st.discovered.skipped ≡ length (arrived es))
          × IsPart (refs_of st.discovered.jobs) (arrived es))
  run_discover_accounts_for_all es d = run-AllHandled es [] empty_stage d (refl, omega arith, tt)
