-- ===== src/Sandbox/Polls.antt =====
-- sandbox.go with worker.go: what a worker publishes of a file that was handed to the sandbox.
use s3nitor.Prelude.{
  ℕ, ◌≡◌, refl, sym, subst, ap, ◌∙◌, ◌&&◌, Option, inr, String, str_eq, Bool, true, false, none,
  some, List, [], ◌∷◌, ◌++◌, All, if◌then◌else◌,
}
use s3nitor.Prelude.Int.{pos, ltb_ℤ}
use s3nitor.Scanner.{
  Float64, Detail, ScanInput, Finding, GoError, PendingError, pending, Time, Duration,
  severity_info, severity_low, severity_medium, severity_high, severity_critical,
}
use s3nitor.Scanner.Verdict.{new_finding_for-Reports}
use s3nitor.Fallible.{Try, ok, err}
use s3nitor.Ledger.{TaskTable}
use s3nitor.Records.{RecordTable}
use s3nitor.Async.Continuation.{Continuation, finding, from_input, input_of}
use s3nitor.Async.Worker.{World, Worker, Texts, Sink, Collector, verdict, is_early}
use s3nitor.Async.Worker.Polling.{
  Attempt, at_attempt, IsOpen, IsYoung, handle_all, ended_is_published,
}
use s3nitor.Sandbox.{
  Sandbox, Backend, Floats, gt, base_name, scan, scanner_of, poll, grade, severity, analysed,
  collector,
}

severity-nonempty :
    (fl : Floats) (s : Sandbox) (score : Float64) → str_eq (severity fl s score) "" ≡ false
unfolding severity
severity-nonempty fl s score =
    nonempty (fl.ge score s.severity_critical_at) (fl.ge score s.severity_high_at)
      (fl.ge score s.severity_medium_at) (gt fl score fl.zero)
  where
    nonempty :
        (c h m l : Bool)
        → str_eq
            (if c
              then severity_critical
              else (if h
                  then severity_high
                  else (if m
                      then severity_medium
                      else (if l then severity_low else severity_info))))
            ""
          ≡ false
    nonempty true h m l = refl
    nonempty false true m l = refl
    nonempty false false true l = refl
    nonempty false false false true = refl
    nonempty false false false false = refl

-- What a pending scan waits for.
abbrev pub ticket_of : Option GoError → PendingError
ticket_of (some (pending pe)) = pe
ticket_of e = record { token = ""; retry_after = pos 0 }

token-submit :
    (s : Sandbox) (open_file : String → Try (List ℕ)) (i : ScanInput) (bytes : List ℕ)
    (token : String)
    → str_eq i.local_path "" ≡ false
    → (ltb_ℤ (pos 0) s.max_size && ltb_ℤ s.max_size i.size) ≡ false
    → open_file i.local_path ≡ ok bytes
    → s.backend.submit s.base (base_name i.key) bytes ≡ ok token
    → (ticket_of (scan s open_file i).1).token ≡ token
unfolding scan
token-submit s open_file i bytes token there small opened sent =
    rw (there, small, opened, sent, scan) refl

-- A worker's attempt that meets the sandbox as it answers then, through `backend`.
abbrev Meets : Floats → Sandbox → Attempt → Backend → Type 0
Meets fl s a backend = a.collector ≡ collector fl (record s { backend = backend })

-- A task that has ended, but whose report cannot be read, stays open.
unreadable-IsOpen :
    (fl : Floats) (s : Sandbox) (c : Continuation) (a : Attempt) (backend : Backend)
    (state : String) (e : GoError)
    → Meets fl s a backend
    → backend.status s.base c.token ≡ ok (state, true)
    → backend.report s.base c.token ≡ err e
    → IsOpen c a
unfolding collector poll
unreadable-IsOpen fl s c a backend state e meets ended unread =
    inr (inr (e, rw (meets, collector, poll, ended, unread) refl))

poll_ended :
    (fl : Floats) (s : Sandbox) (token state : String) (score : Float64) (d : Detail)
    → s.backend.status s.base token ≡ ok (state, true)
    → s.backend.report s.base token ≡ ok (score, d)
    → poll fl s token ≡ verdict (grade fl s score (analysed fl s token state d))
unfolding poll
poll_ended fl s token state score d ended reported = rw (ended, poll, reported) refl

-- A finding of these grades of an object.
pub record Tells (i : ScanInput) (name : String) (is_match : Bool) (grade : String) (f : Finding)
    : Type 0 where
  pub same_object : (f.file_id ≡ i.file_id) × (f.key ≡ i.key) × (f.hashes ≡ i.hashes)
  pub same_scanner : f.scanner ≡ name
  pub same_verdict : (f.is_match ≡ is_match) × (f.severity ≡ grade)
  pub no_error : f.error ≡ ""

finding-Tells :
    (fl : Floats) (s : Sandbox) (i : ScanInput) (open_file : String → Try (List ℕ))
    (pe : PendingError) (wait : Duration) (now at_finding : Time) (score : Float64) (d : Detail)
    → Tells i s.backend.name (fl.ge score s.severity_medium_at) (severity fl s score) (
        finding
          (from_input i (scanner_of s open_file) pe wait now)
          (grade fl s score d)
          none
          at_finding)
unfolding finding from_input input_of scanner_of grade
finding-Tells fl s i open_file pe wait now at_finding score d =
    let c = from_input i (scanner_of s open_file) pe wait now in
    let v =
      new_finding_for-Reports (input_of c) c.scanner c.rules_version (grade fl s score d) none
        at_finding in
    record {
      same_object = (v.same_object.0, v.same_object.2, v.same_version.2);
      same_scanner = v.same_scanner.0;
      same_verdict = (
        v.same_verdict.0,
        v.graded
            ∙ ap (λ b. if b then severity_info else severity fl s score)
                (severity-nonempty fl s score),
      );
      no_error = v.same_error;
    }

module _ (fl : Floats) (s : Sandbox) (db : TaskTable) (files : RecordTable) (sink : Sink)
    (texts : Texts) (w : Worker) where
  -- Where the payload can be read, is not too large, and the backend takes it under a token: of the
  -- continuation that is made of the answer of Scan, the attempts before one were each too early,
  -- failed, or found the task under way, and at that one the task with the backend's token has ended
  -- and its report can be read. Then, if the continuation was never too old and the sink takes it, the
  -- attempts together publish exactly one finding: on that object, by that backend, without an error,
  -- and with the match and the severity of the score. That a worker attempts it is a condition.
  pub submitted_is_published :
      (i : ScanInput) (open_file : String → Try (List ℕ)) (bytes : List ℕ) (token : String)
      (wait : Duration) (now : Time) (as' : List Attempt) (a : Attempt) (backend : Backend)
      (state : String) (score : Float64) (d : Detail) (world : World db files sink texts w)
      → str_eq i.local_path "" ≡ false
      → (ltb_ℤ (pos 0) s.max_size && ltb_ℤ s.max_size i.size) ≡ false
      → open_file i.local_path ≡ ok bytes
      → s.backend.submit s.base (base_name i.key) bytes ≡ ok token
      → let c = from_input i (scanner_of s open_file) (ticket_of (scan s open_file i).1) wait now in
        All (IsYoung db files sink texts w c) (as' ++ a ∷ [])
        → All (IsOpen c) as'
        → is_early a.readings.at_poll (at_attempt c a) ≡ false
        → Meets fl s a backend
        → backend.status s.base token ≡ ok (state, true)
        → backend.report s.base token ≡ ok (score, d)
        → ((f : Finding) → sink f world.published ≡ none)
        → (f : Finding) × ((handle_all db files sink texts w c (as' ++ a ∷ []) world).published
            ≡ world.published ++ f ∷ [])
          × Tells i s.backend.name (fl.ge score s.severity_medium_at) (severity fl s score) f
  unfolding from_input collector poll
  submitted_is_published i open_file bytes token wait now as' a backend state score d world there
        small opened sent young open' due meets ended reported takes =
      let pe = ticket_of (scan s open_file i).1 in
      let same : pe.token ≡ token =
        token-submit s open_file i bytes token there small opened sent in
      let c = from_input i (scanner_of s open_file) pe wait now in
      let s' = record s { backend = backend } in
      let res = grade fl s' score (analysed fl s' pe.token state d) in
      let f = finding c res none a.readings.at_finding in
      (
        f,
        ended_is_published db files sink texts w c as' a res world young open' due
            (ap (λ (k : Collector). k.poll c.token) meets
              ∙ poll_ended fl s' pe.token state score d
                  (subst (λ t. backend.status s.base t ≡ ok (state, true)) (sym same) ended)
                  (subst (λ t. backend.report s.base t ≡ ok (score, d)) (sym same) reported))
            (takes f),
        finding-Tells fl s i open_file pe wait now a.readings.at_finding score
            (analysed fl s' pe.token state d),
      )
