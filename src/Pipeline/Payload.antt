-- ===== src/Pipeline/Payload.antt =====
-- internal/pipeline/pipeline.go: a fetched object with what it holds, counted by the scanners that
-- read it, and the dispatch of one payload to the lanes (payload, done, free, runDispatch, spill).
pub mod References
pub mod Lifetime
use s3nitor.Prelude.{
  ℕ, zero, suc, ◌+◌, String, str_eq, Bool, true, false, not, List, [], ◌∷◌, ◌++◌, if◌then◌else◌,
}
use s3nitor.Prelude.Int.{ℤ, pos, ◌-ℤ◌, ◌+ℤ◌, leb_ℤ, wrap32}
use s3nitor.Scanner.{ScanInput, Scanner, Time, Duration}
use s3nitor.Ledger.{TaskTable, enqueue_pending}
use s3nitor.Async.Worker.{settle}

-- `is_freed` is the `once`. `removals` and `releases` count the calls that `free` made.
pub record Payload : Type 0 where
  pub input : ScanInput
  pub refs : ℤ
  pub is_freed : Bool
  pub removals : ℕ
  pub releases : ℕ

unfoldable pub free : Payload → Payload
free p = if p.is_freed then p else record p {
  is_freed = true;
  removals = if str_eq p.input.local_path "" then p.removals else suc p.removals;
  releases = suc p.releases;
}

unfoldable pub drop_ref : Payload → Payload
drop_ref p = record p { refs = wrap32 (p.refs -ℤ pos 1) }

unfoldable pub done : Payload → Payload
unfolding free drop_ref
done p = if leb_ℤ (drop_ref p).refs (pos 0) then free (drop_ref p) else drop_ref p

pub data FullPolicy : Type 0 where
  policy_block policy_spill : FullPolicy

unfoldable policy_name : FullPolicy → String
policy_name policy_spill = "spill"
policy_name policy_block = "block"

unfoldable pub is_spill : FullPolicy → Bool
is_spill policy_spill = true
is_spill policy_block = false

-- What the send into a lane's queue meets: room, a full queue, or the end of the context. A lane
-- that blocks waits until there is room, so it meets a full queue only as the end of the context.
pub data Send : Type 0 where
  accepted full cancelled : Send

-- A lane as the dispatcher sees it, in the order in which it ranges over the map.
pub record Stop : Type 0 where
  pub scanner : Scanner
  pub policy : FullPolicy
  pub met : Send

-- What becomes of the task: it goes into the queue, it is parked in the ledger, or the dispatcher
-- stops at it.
pub data Move : Type 0 where
  goes parks stops : Move

unfoldable pub move_of : FullPolicy → Send → Move
move_of p accepted = goes
move_of policy_spill m = parks
move_of policy_block m = stops

-- The scanners that read the file.
unfoldable pub readers : List Stop → ℕ
readers [] = 0
readers (l ∷ ls) = let n = readers ls in if l.scanner.needs_payload then suc n else n

unfoldable pub give_up_ref : Scanner → Payload → Payload
unfolding done
give_up_ref s p = if s.needs_payload then done p else p

module _ (db : TaskTable) (pending_retry_base : Duration) where
  -- A payload under way: the ledger, and the tasks that went into a queue or were spilled.
  pub record Fanout : Type 0 where
    pub payload : Payload
    pub ledger : db.State
    pub queued : List Scanner
    pub spilled : List Scanner

  unfoldable pub spill : Scanner → Time → Fanout → Fanout
  unfolding give_up_ref
  spill s now w = record w {
    payload = give_up_ref s w.payload;
    ledger =
        settle
          (enqueue_pending db w.payload.input.file_id s.name s.rules_version pending_retry_base now
            w.ledger)
          w.ledger;
    spilled = w.spilled ++ s ∷ [];
  }

  unfoldable pub enqueue : Scanner → Fanout → Fanout
  enqueue s w = record w { queued = w.queued ++ s ∷ [] }

  -- The loop over the lanes, with a reading of the clock for each. It stops at a lane that blocks
  -- when the context ends.
  unfoldable pub fan_out : (Scanner → Time) → List Stop → Fanout → Fanout
  unfolding spill enqueue move_of
  fan_out clock [] w = w
  fan_out clock (l ∷ ls) w = elim (move_of l.policy l.met) [
    | goes ↦ fan_out clock ls (enqueue l.scanner w)
    | parks ↦ fan_out clock ls (spill l.scanner (clock l.scanner) w)
    | stops ↦ record w { payload = give_up_ref l.scanner w.payload }
  ]

  -- `pl.refs.Store(readers)`, after a payload that nothing reads was freed.
  unfoldable pub with_refs : List Stop → Payload → Payload
  unfolding free readers
  with_refs ls p = record (if leb_ℤ (pos (readers ls)) (pos 0) then free p else p) {
    refs = wrap32 (pos (readers ls));
  }

  unfoldable pub dispatch : (Scanner → Time) → List Stop → Payload → db.State → Fanout
  unfolding fan_out with_refs
  dispatch clock ls p ledger =
      fan_out clock ls
        (record { payload = with_refs ls p; ledger = ledger; queued = []; spilled = [] })

-- The ends of tasks in the lanes, each of which gives its reference up.
unfoldable pub all_ended : List Scanner → Payload → Payload
all_ended [] p = p
all_ended (s ∷ ss) p = all_ended ss (give_up_ref s p)
