-- ===== src/Source/Transports.antt =====
-- internal/source/transport: Consume of the two transports, as the payloads that are delivered from what
-- the clients answer. Each answer tells whether the context had ended, or whether the send behind it went
-- through before that.
use s3nitor.Prelude.{ℕ, Bool, List, [], ◌∷◌, if◌then◌else◌}

-- redis.go. An empty list is a BRPop that timed out.
data Popped : Type 0 where
  timed_out : Popped
  pop_failed : Bool → Popped
  popped : List (List ℕ) → Bool → Popped

-- What a pop has taken out of the list is delivered or lost.
unfoldable consume_redis : List Popped → List (List ℕ)
consume_redis [] = []
consume_redis (timed_out ∷ pops) = consume_redis pops
consume_redis (pop_failed ended ∷ pops) =
    let rest = consume_redis pops in if ended then [] else rest
consume_redis (popped [] sent ∷ pops) = consume_redis pops
consume_redis (popped (key ∷ []) sent ∷ pops) = consume_redis pops
consume_redis (popped (key ∷ payload ∷ more) sent ∷ pops) =
    let rest = consume_redis pops in if sent then payload ∷ rest else []

-- kafka.go. A message has an offset, which its acknowledgement commits.
data Fetched : Type 0 where
  fetch_failed : Bool → Fetched
  fetched : ℕ → List ℕ → Bool → Fetched

unfoldable consume_kafka : List Fetched → List (ℕ × List ℕ)
consume_kafka [] = []
consume_kafka (fetch_failed ended ∷ fs) = let rest = consume_kafka fs in if ended then [] else rest
consume_kafka (fetched offset payload sent ∷ fs) =
    let rest = consume_kafka fs in if sent then (offset, payload) ∷ rest else []
