-- ===== src/Async/Worker/Polling.antt =====
-- internal/async/worker.go: a continuation that is handled again and again until its scan has ended.
use s3nitor.Prelude.{
  ◌≡◌, refl, ap, ◌∙◌, ◌⊎◌, inl, inr, true, false, Bool-cases, none, some, List, [], ◌∷◌, ◌++◌, All,
}
use s3nitor.Scanner.{Time, Result, GoError}
use s3nitor.Ledger.{TaskTable}
use s3nitor.Records.{RecordTable}
use s3nitor.Async.Continuation.{Continuation, finding}
use s3nitor.Async.Worker.{
  Worker, World, Readings, Texts, Sink, Collector, PollResult, poll_failed, not_done, verdict,
  reschedule, finish, polled, collected, is_abandoned, is_early,
}

-- One handling of a continuation: the time that the ledger or the broker has for its next poll, the
-- clock's readings, and the collector as it answers then.
pub record Attempt : Type 0 where
  pub poll_after : Time
  pub readings : Readings
  pub collector : Collector

abbrev pub at_attempt : Continuation → Attempt → Continuation
at_attempt c a = record c { poll_after = a.poll_after }

-- The poll is too early, or tells of no end.
abbrev pub IsOpen : Continuation → Attempt → Type 0
IsOpen c a =
    (is_early a.readings.at_poll (at_attempt c a) ≡ true)
    ⊎ (a.collector.poll c.token ≡ not_done)
    ⊎ ((e : GoError) × (a.collector.poll c.token ≡ poll_failed e))

All-split :
    (P : Attempt → Type 0) (as' : List Attempt) (a : Attempt)
    → All P (as' ++ a ∷ [])
    → All P as' × P a
All-split P [] a h = (tt, h.0)
All-split P (b ∷ as') a h = let (hs, ha) = All-split P as' a h.1 in ((h.0, hs), ha)

module _ (db : TaskTable) (files : RecordTable) (sink : Sink) (texts : Texts) (w : Worker) where
  -- `collected` is what `handle` does once it has looked up the collector.
  abbrev pub handle_all :
      Continuation → List Attempt → World db files sink texts w → World db files sink texts w
  handle_all c [] s = s
  handle_all c (a ∷ as') s =
      handle_all c as'
        (collected db files sink texts w (at_attempt c a) a.readings (some a.collector) s)

  abbrev pub IsYoung : Continuation → Attempt → Type 0
  IsYoung c a = is_abandoned w a.readings.at_age c ≡ false

  polled_open :
      (c : Continuation) (r : Readings) (p : PollResult) (s : World db files sink texts w)
      → (p ≡ not_done) ⊎ ((e : GoError) × (p ≡ poll_failed e))
      → (polled db files sink texts w c r p s).published ≡ s.published
  unfolding polled reschedule
  polled_open c r p s (inl e) = rw e refl
  polled_open c r p s (inr (x, e)) = rw e refl

  open_keeps :
      (c : Continuation) (a : Attempt) (s : World db files sink texts w)
      → IsYoung c a
      → IsOpen c a
      → (collected db files sink texts w (at_attempt c a) a.readings (some a.collector) s).published
        ≡ s.published
  unfolding collected is_abandoned
  open_keeps c a s young (inl early) = rw (young, early) refl
  open_keeps c a s young (inr h) =
      elim (Bool-cases (is_early a.readings.at_poll (at_attempt c a))) [
        | inl early ↦ rw (young, early) refl
        | inr due ↦
            rw (young, due) (polled_open (at_attempt c a) a.readings (a.collector.poll c.token) s h)
      ]

  handle_all-open :
      (c : Continuation) (as' : List Attempt) (s : World db files sink texts w)
      → All (IsYoung c) as'
      → All (IsOpen c) as'
      → (handle_all c as' s).published ≡ s.published
  handle_all-open c [] s young open' = refl
  handle_all-open c (a ∷ as') s (y, ys) (o, os) =
      handle_all-open c as' _ ys os ∙ open_keeps c a s y o

  handle_all-append :
      (c : Continuation) (as' : List Attempt) (a : Attempt) (s : World db files sink texts w)
      → handle_all c (as' ++ a ∷ []) s
        ≡ collected db files sink texts w
            (at_attempt c a)
            a.readings
            (some a.collector)
            (handle_all c as' s)
  handle_all-append c [] a s = refl
  handle_all-append c (b ∷ as') a s = handle_all-append c as' a _

  -- However often the polls of a scan were too early, failed or found it under way: with the first poll
  -- that is due and finds it ended, while it is not too old, exactly its finding is published, once,
  -- if the sink takes it.
  pub ended_is_published :
      (c : Continuation) (as' : List Attempt) (a : Attempt) (res : Result)
      (s : World db files sink texts w)
      → All (IsYoung c) (as' ++ a ∷ [])
      → All (IsOpen c) as'
      → is_early a.readings.at_poll (at_attempt c a) ≡ false
      → a.collector.poll c.token ≡ verdict res
      → sink (finding c res none a.readings.at_finding) s.published ≡ none
      → (handle_all c (as' ++ a ∷ []) s).published
        ≡ s.published ++ finding c res none a.readings.at_finding ∷ []
  unfolding collected is_abandoned polled finish finding
  ended_is_published c as' a res s young open' due ended takes =
      let (ys, y) = All-split (IsYoung c) as' a young in
      let same = handle_all-open c as' s ys open' in
      rw (handle_all-append c as' a s, y, due, ended, same, takes)
        (ap (λ fs. fs ++ finding c res none a.readings.at_finding ∷ []) same)
