-- ===== src/Pipeline/Lane.antt =====
-- internal/pipeline/pipeline.go: one queue for each scanner, with the limiter that fits what it waits
-- for, and what a worker does with a task (buildLanes, runLane, handoff).
pub mod Tasks
pub mod Lanes
use s3nitor.Prelude.{
  ℕ, suc, String, str_eq, Bool, true, false, Option, none, some, List, [], ◌∷◌, ◌++◌, any,
  if◌then◌else◌,
}
use s3nitor.Prelude.Int.{ℤ, pos, ◌-ℤ◌}
use s3nitor.Scanner.{
  Scanner, ScanInput, Result, GoError, PendingError, Finding, Time, Duration, Float64, Context,
  as_pending, new_finding, run_scan,
}
use s3nitor.Config.{Config}
use s3nitor.Ledger.{TaskTable, enqueue_continuation, enqueue_pending}
use s3nitor.Limiter.{RateLimiter, FloatOps, new_rate_limiter}
use s3nitor.Async.Continuation.{Continuation, from_input}
use s3nitor.Async.Worker.{settle}
use s3nitor.Pipeline.Payload.{
  FullPolicy, policy_block, policy_spill, is_spill, Payload, give_up_ref,
}

-- The limiter of a lane: the one that all local scanners share, or one of its own.
pub data LaneLimiter : Type 0 where
  shared_cpu : LaneLimiter
  own_rate : RateLimiter → LaneLimiter

pub record Lane : Type 0 where
  pub scanner : Scanner
  pub queue_size : ℤ
  pub limiter : LaneLimiter
  pub policy : FullPolicy
  pub workers : ℤ

-- A missing key of the rates is the rate zero.
unfoldable rate_of : Float64 → String → List (String × Float64) → Float64
rate_of zero_rate name [] = zero_rate
rate_of zero_rate name ((k, r) ∷ m) = if str_eq k name then r else rate_of zero_rate name m

unfoldable per_min : FloatOps → Float64 → Float64
per_min fl r = if fl.le r (fl.of_nat 0) then fl.of_nat 60 else r

unfoldable pub lane_for : FloatOps → Config → ℤ → Scanner → Lane
unfolding rate_of per_min
lane_for fl cfg cpu_limit sc =
    if any (str_eq sc.name) cfg.spill_scanners
    then record {
      scanner = sc;
      queue_size = cfg.stage_queue_size;
      limiter = own_rate (
          new_rate_limiter fl sc.name (
            fl.div (per_min fl (rate_of (fl.of_nat 0) sc.name cfg.scanner_rate_per_min))
              (fl.of_nat 60)));
      policy = policy_spill;
      workers = pos 1;
    }
    else record {
      scanner = sc;
      queue_size = cfg.stage_queue_size;
      limiter = shared_cpu;
      policy = policy_block;
      workers = cpu_limit;
    }

-- `lanes[name] = l`: a lane of the name is replaced.
unfoldable pub put_lane : Lane → List Lane → List Lane
put_lane l [] = l ∷ []
put_lane l (m ∷ ms) =
    let rest = put_lane l ms in if str_eq m.scanner.name l.scanner.name then l ∷ ms else m ∷ rest

unfoldable pub add_lanes : FloatOps → Config → ℤ → List Scanner → List Lane → List Lane
unfolding lane_for put_lane
add_lanes fl cfg cpu_limit [] m = m
add_lanes fl cfg cpu_limit (sc ∷ scs) m =
    add_lanes fl cfg cpu_limit scs
      (if sc.enabled then put_lane (lane_for fl cfg cpu_limit sc) m else m)

unfoldable pub build_lanes : FloatOps → Config → ℤ → List Scanner → List Lane
unfolding add_lanes
build_lanes fl cfg cpu_limit scs = add_lanes fl cfg cpu_limit scs []

-- What a worker's steps meet, in their order: whether the context has ended when the task is taken,
-- the limiter's error, and whether the finding is sent before the context ends. The other fields are
-- the clock's readings.
pub record Turn : Type 0 where
  pub is_cancelled : Bool
  pub refusal : Option GoError
  pub is_sent : Bool
  pub scan_start : Time
  pub scan_end : Time
  pub at_write : Time

-- AsPending, of the error that a scan returned.
unfoldable pub pending_of : Option GoError → Option PendingError
unfolding as_pending
pending_of none = none
pending_of (some e) = as_pending e

module _ (db : TaskTable) (A : Type 0) (publish : Continuation → A → Option GoError × A)
    (cfg : Config) where
  -- The ledger, the broker, the findings sent to the publish stage, and two counters.
  pub record Floor : Type 0 where
    pub ledger : db.State
    pub broker : A
    pub findings : List Finding
    pub spilled : ℕ
    pub scanned : ℕ

  -- Errors of the two calls are logged, and the second call is made whatever the first returns.
  unfoldable pub handoff : Scanner → ScanInput → PendingError → Time → Time → Floor → Floor
  handoff s i pe now at_write w =
      let c = from_input i s pe cfg.async_poll_interval now in
      let (err, broker) = publish c w.broker in
      record w {
        ledger =
            settle
              (enqueue_continuation db i.file_id c.scanner c.rules_version c.token
                (c.poll_after -ℤ c.submitted_at) at_write w.ledger)
              w.ledger;
        broker = broker;
        spilled = suc w.spilled;
      }

  park : Lane → ScanInput → Time → Floor → Floor
  park l i now w =
      if is_spill l.policy
      then record w {
        ledger =
            settle
              (enqueue_pending db i.file_id l.scanner.name l.scanner.rules_version
                cfg.pending_retry_base now w.ledger)
              w.ledger;
      }
      else w

  unfoldable pub conclude : Lane → ScanInput → Turn → Result → Option GoError → Floor → Floor
  conclude l i turn res scan_err w = record w {
    findings =
        if turn.is_sent
        then w.findings ++ new_finding i l.scanner res scan_err turn.scan_end ∷ []
        else w.findings;
    scanned = suc w.scanned;
  }

  scanned_task : Lane → ScanInput → Turn → Result → Option GoError → Floor → Floor
  unfolding pending_of handoff conclude
  scanned_task l i turn res scan_err w = elim (pending_of scan_err) [
    | some pe ↦ handoff l.scanner i pe turn.scan_end turn.at_write w
    | none ↦ conclude l i turn res scan_err w
  ]

  -- The body of runLane but for its deferred `done`.
  unfoldable pub work : Lane → Context → Turn → ScanInput → Floor → Floor
  unfolding park scanned_task run_scan
  work l ctx turn i w = if turn.is_cancelled then w else elim turn.refusal [
    | some e ↦ park l i turn.at_write w
    | none ↦
        let (res, scan_err) = run_scan turn.scan_start ctx l.scanner i in
        scanned_task l i turn res scan_err w
  ]

  unfoldable run_task : Lane → Context → Turn → Payload → Floor → Floor × Payload
  unfolding work
  run_task l ctx turn p w = (work l ctx turn p.input w, give_up_ref l.scanner p)
