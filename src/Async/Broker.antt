-- ===== src/Async/Broker.antt =====
-- internal/async/kafka.go and Worker.Run (worker.go): continuations through a topic. The consumer's
-- goroutine and the loop of Run are joined by an unbuffered channel; a move is what one of them does
-- next, and a list of moves is an interleaving. The Kafka client and JSON are parameters.
pub mod Order
pub mod Once
use s3nitor.Prelude.{ℕ, String, str_append, Bool, Option, some, List, [], ◌∷◌, if◌then◌else◌}
use s3nitor.Prelude.Text.{nul}
use s3nitor.Scanner.{GoError}
use s3nitor.Fallible.{Try, ok, err}
use s3nitor.Async.Continuation.{Continuation}

pub record Message : Type 0 where
  pub key : String
  pub value : List ℕ

-- KafkaPublisher.Publish, with `write` for WriteMessages.
unfoldable pub publish {ℓ} :
    {S : Type ℓ}
    → (Continuation → Try (List ℕ))
    → (Message → S → Option GoError × S)
    → Continuation
    → S
    → Option GoError × S
publish marshal write c s = elim (marshal c) [
  | err e ↦ (some e, s)
  | ok body ↦
      write (record { key = str_append c.file_id (str_append nul c.scanner); value = body }) s
]

-- What the two goroutines did. A message is named by its offset; `acked n` is the call of CommitMessages
-- with it, by which Kafka takes all messages of the partition up to it as read (Async.Broker.Order).
pub data Act : Type 0 where
  read : ℕ → List ℕ → Act
  handled : ℕ → Continuation → Act
  acked : ℕ → Act

pub data Consumer : Type 0 where
  fetching : Consumer
  offering : ℕ → Continuation → Consumer
  stopped : Consumer

pub data Loop : Type 0 where
  idle : Loop
  busy : ℕ → Continuation → Loop
  settled : ℕ → Loop

-- The acts stand with the latest first.
pub record Line : Type 0 where
  pub consumer : Consumer
  pub loop : Loop
  pub acts : List Act

-- `fetch_failed` tells whether the context has ended; `passed` and `cancelled` are the cases of the
-- consumer's select; `handle_returned` and `ack_returned` are the calls of the loop's body, the latter
-- with an error or without.
pub data Move : Type 0 where
  fetched : ℕ → List ℕ → Move
  fetch_failed : Bool → Move
  passed cancelled handle_returned ack_returned : Move

abbrev pub start : Line
start = record { consumer = fetching; loop = idle; acts = [] }

module _ (unmarshal : List ℕ → Try Continuation) where
  -- A message that cannot be decoded is committed at once.
  unfoldable pub received : ℕ → List ℕ → Line → Line
  received n value l = elim (unmarshal value) [
    | err e ↦ record l { acts = acked n ∷ read n value ∷ l.acts }
    | ok c ↦ record l { consumer = offering n c; acts = read n value ∷ l.acts }
  ]

  unfoldable pub pass : Consumer → Loop → Line → Line
  pass (offering n c) idle l = record l { consumer = fetching; loop = busy n c }
  pass (offering n c) (busy m d) l = l
  pass (offering n c) (settled m) l = l
  pass fetching p l = l
  pass stopped p l = l

  -- A move that is not possible in a state changes nothing.
  unfoldable pub advance : Move → Line → Line
  unfolding received pass
  advance (fetched n value) l = elim l.consumer [ fetching ↦ received n value l | _ ↦ l ]
  advance (fetch_failed ended) l = elim l.consumer [
    | fetching ↦ if ended then record l { consumer = stopped } else l
    | _ ↦ l
  ]
  advance passed l = pass l.consumer l.loop l
  advance cancelled l = elim l.consumer [ offering n c ↦ record l { consumer = stopped } | _ ↦ l ]
  advance handle_returned l = elim l.loop [
    | busy n c ↦ record l { loop = settled n; acts = handled n c ∷ l.acts }
    | _ ↦ l
  ]
  advance ack_returned l = elim l.loop [
    | settled n ↦ record l { loop = idle; acts = acked n ∷ l.acts }
    | _ ↦ l
  ]

  unfoldable pub run_moves : List Move → Line → Line
  unfolding advance
  run_moves [] l = l
  run_moves (m ∷ ms) l = run_moves ms (advance m l)
