-- ===== src/Source.antt =====
-- internal/source/event.go: the references that broker messages carry. The transport and the decoder
-- are parameters. What Items does is a list of actions in their order.
pub mod Deliveries
pub mod Minio
pub mod Lister
pub mod Transports
use s3nitor.Prelude.{ℕ, suc, Bool, true, false, List, [], ◌∷◌, ◌++◌}
use s3nitor.Scanner.{GoError}
use s3nitor.Pipeline.Discover.{ObjectRef}

-- What the decoder makes of a payload.
pub data Decoded : Type 0 where
  decoded : List ObjectRef → Decoded
  undecodable : GoError → Decoded

pub data Act : Type 0 where
  -- a reference goes into the channel
  sent : ObjectRef → Act
  -- the delivery at this position is acknowledged; an error of the acknowledgement is only logged
  acked : ℕ → Act

-- How the loop over the references of a delivery ends: with all sent, or with the context.
pub data Handed : Type 0 where
  all_sent : Handed
  stopped : Handed

-- `sends n` tells whether the n-th send goes through before the context ends.
unfoldable pub hand_on : (ℕ → Bool) → ℕ → List ObjectRef → List Act × Handed
hand_on sends n [] = ([], all_sent)
hand_on sends n (ref ∷ refs) = elim (sends n) [
  | true ↦ let (acts, end) = hand_on sends (suc n) refs in (sent ref ∷ acts, end)
  | false ↦ ([], stopped)
]

unfoldable pub after_sends : ℕ → List ObjectRef → ℕ
after_sends n [] = n
after_sends n (ref ∷ refs) = after_sends (suc n) refs

-- The goroutine of Items, from the delivery at position `i`, after `n` sends.
unfoldable pub items : (ℕ → Bool) → ℕ → ℕ → List Decoded → List Act
unfolding hand_on
items sends i n [] = []
items sends i n (undecodable e ∷ ds) = acked i ∷ items sends (suc i) n ds
items sends i n (decoded refs ∷ ds) =
    let (acts, end) = hand_on sends n refs in
    elim end [
      | all_sent ↦ acts ++ acked i ∷ items sends (suc i) (after_sends n refs) ds
      | stopped ↦ acts
    ]
