-- ===== src/Examples/Topics.antt =====
-- The theorems on the topic of continuations at a concrete interleaving, and on the texts of sizes.
use s3nitor.Prelude.{
  ℕ, suc, ◌^◌, ◌*◌, ◌≤◌, ◌<◌, ◌≡◌, refl, String, some, List, [], ◌∷◌, ◌++◌, arith,
}
use s3nitor.Prelude.Int.{ℤ, pos}
use s3nitor.Scanner.{failure}
use s3nitor.Fallible.{Try, ok, err}
use s3nitor.Async.Continuation.{Continuation}
use s3nitor.Async.Broker.{
  Act, read, handled, acked, Move, fetched, passed, handle_returned, ack_returned, start, run_moves,
  fetching, idle,
}
use s3nitor.Async.Broker.Order.{IsCovered, acknowledged-IsCovered}
use s3nitor.Async.Broker.Once.{handled_of, read_of, handled_in_order}
use s3nitor.Programs.Sizes.{units, unit_at, human_bytes, human_bytes_scales}

abbrev job : Continuation
job = record {
  file_id = "id";
  bucket = "b";
  key = "k";
  version = "";
  size = pos 1;
  hashes = [];
  scanner = "cape";
  rules_version = "";
  token = "7";
  submitted_at = pos 0;
  poll_after = pos 9;
}

-- Only the empty message cannot be decoded.
abbrev decode_job : List ℕ → Try Continuation
decode_job [] = err (failure "unexpected end of JSON input")
decode_job (b ∷ bs) = ok job

abbrev moves : List Move
moves = fetched 4 (1 ∷ []) ∷ passed ∷ fetched 5 [] ∷ handle_returned ∷ ack_returned ∷ []

abbrev before_ack : List Act
before_ack = handled 4 job ∷ acked 5 ∷ read 5 [] ∷ read 4 (1 ∷ []) ∷ []

moved : (run_moves decode_job moves start).acts ≡ [] ++ acked 4 ∷ before_ack
unfolding run_moves
moved = refl

acknowledged-IsCovered_example : IsCovered decode_job 4 before_ack
acknowledged-IsCovered_example = acknowledged-IsCovered decode_job moves 4 [] before_ack moved

handled_in_order_example :
    let l = run_moves decode_job moves start in
    ((rest : List (ℕ × Continuation)) × (read_of decode_job l.acts ≡ rest ++ handled_of l.acts))
    × (l.consumer ≡ fetching → l.loop ≡ idle → read_of decode_job l.acts ≡ handled_of l.acts)
handled_in_order_example = handled_in_order decode_job moves

abbrev whole : ℤ → String
whole n = "small"

abbrev tenths : ℕ → ℕ → String → String
tenths b div unit = unit

human_bytes_scales_example :
    (e : ℕ) × (u : String) × (unit_at e units ≡ some u)
    × (1024 ^ suc e ≤ 5 * 2 ^ 30)
    × (5 * 2 ^ 30 < 1024 ^ suc (suc e))
    × (human_bytes whole tenths (pos (5 * 2 ^ 30)) ≡ some (tenths (5 * 2 ^ 30) (1024 ^ suc e) u))
human_bytes_scales_example =
    human_bytes_scales whole tenths (5 * 2 ^ 30) (omega arith) (omega arith)
