-- ===== src/Async/Broker/Order.antt =====
-- internal/async/kafka.go, worker.go: what a commit covers, in every interleaving of the two
-- goroutines. A commit in Kafka covers all messages up to the one that it names.
use s3nitor.Prelude.{
  ℕ, ◌≡◌, ◌≤◌, refl, ap, subst, ◌⊎◌, inl, inr, true, false, List, [], ◌∷◌, ◌++◌, length, arith,
}
use s3nitor.Scanner.{GoError}
use s3nitor.Fallible.{Try, ok, err, Try-cases}
use s3nitor.Async.Continuation.{Continuation}
use s3nitor.Async.Broker.{
  Act, read, handled, acked, Consumer, fetching, offering, stopped, Loop, idle, busy, settled, Line,
  Move, fetched, fetch_failed, passed, cancelled, handle_returned, ack_returned, start, received,
  pass, advance, run_moves,
}
use s3nitor.Async.Broker.Once.{Named, in_loop, handled_of, read_of, Accounts, step-Accounts}

in_loop_one : (q : Loop) → length (in_loop q) ≤ 1
in_loop_one idle = omega arith
in_loop_one (busy n c) = omega arith
in_loop_one (settled n) = omega arith

module _ (unmarshal : List ℕ → Try Continuation) where
  -- A message that was read, with the acts after and before that.
  pub record Spot (n : ℕ) (acts : List Act) : Type 0 where
    pub later : List Act
    pub value : List ℕ
    pub earlier : List Act
    pub split : acts ≡ later ++ read n value ∷ earlier

  abbrev spot_later : {n : ℕ} {acts : List Act} (b : Act) → Spot n acts → Spot n (b ∷ acts)
  spot_later b s = record {
    later = b ∷ s.later;
    value = s.value;
    earlier = s.earlier;
    split = ap (◌∷◌ b) s.split;
  }

  abbrev spot_here : (n : ℕ) (value : List ℕ) (acts : List Act) → Spot n (read n value ∷ acts)
  spot_here n value acts = record { later = []; value = value; earlier = acts; split = refl }

  -- The message holds this continuation, and the continuations that were read before it are these.
  abbrev Holds : ℕ → Continuation → List Named → List Act → Type 0
  Holds n c before acts =
      (s : Spot n acts) × (unmarshal s.value ≡ ok c) × (read_of unmarshal s.earlier ≡ before)

  -- If the message holds a continuation, it and all that were read before it are handled. If it cannot
  -- be decoded, all that were read before it are, but for at most the latest one.
  abbrev pub IsCovered : ℕ → List Act → Type 0
  IsCovered n acts =
      (s : Spot n acts) × (((c : Continuation) × (unmarshal s.value ≡ ok c)
          × ((n, c) ∷ read_of unmarshal s.earlier ≡ handled_of acts))
        ⊎ ((e : GoError) × (unmarshal s.value ≡ err e)
            × (rest : List (ℕ × Continuation)) × (length rest ≤ 1)
            × (read_of unmarshal s.earlier ≡ rest ++ handled_of acts)))

  -- What every acknowledgement finds.
  abbrev IsSafe : List Act → Type 0
  IsSafe [] = Unit
  IsSafe (read n value ∷ acts) = IsSafe acts
  IsSafe (handled n c ∷ acts) = IsSafe acts
  IsSafe (acked n ∷ acts) = IsCovered n acts × IsSafe acts

  abbrev OfConsumer : Consumer → Loop → List Act → Type 0
  OfConsumer fetching q acts = Unit
  OfConsumer stopped q acts = Unit
  OfConsumer (offering n c) q acts = Holds n c (in_loop q ++ handled_of acts) acts

  abbrev OfLoop : Loop → List Act → Type 0
  OfLoop idle acts = Unit
  OfLoop (busy n c) acts = Holds n c (handled_of acts) acts
  OfLoop (settled n) acts =
      (s : Spot n acts) × (c : Continuation) × (unmarshal s.value ≡ ok c)
      × ((n, c) ∷ read_of unmarshal s.earlier ≡ handled_of acts)

  -- An act that handles nothing.
  abbrev IsQuiet : Act → Type 0
  IsQuiet a = (acts : List Act) → handled_of (a ∷ acts) ≡ handled_of acts

  OfLoop-later :
      (q : Loop) (b : Act) (acts : List Act) → IsQuiet b → OfLoop q acts → OfLoop q (b ∷ acts)
  OfLoop-later idle b acts quiet h = tt
  OfLoop-later (busy n c) b acts quiet (s, e, h) = (spot_later b s, e, rw (quiet acts) h)
  OfLoop-later (settled n) b acts quiet (s, c, e, h) = (spot_later b s, c, e, rw (quiet acts) h)

  record Inv (l : Line) : Type 0 where
    safe : IsSafe l.acts
    accounts : Accounts unmarshal l.consumer l.loop l.acts
    of_consumer : OfConsumer l.consumer l.loop l.acts
    of_loop : OfLoop l.loop l.acts

  -- The same without the accounts, which Once keeps.
  record Kept (l : Line) : Type 0 where
    safe : IsSafe l.acts
    of_consumer : OfConsumer l.consumer l.loop l.acts
    of_loop : OfLoop l.loop l.acts

  kept : {l : Line} → Inv l → Kept l
  kept v = record { safe = v.safe; of_consumer = v.of_consumer; of_loop = v.of_loop }

  received-Kept :
      (n : ℕ) (value : List ℕ) (q : Loop) (acts : List Act)
      → Inv (record { consumer = fetching; loop = q; acts = acts })
      → Kept (received unmarshal n value (record { consumer = fetching; loop = q; acts = acts }))
  unfolding received
  received-Kept n value q acts inv =
      let here = spot_here n value acts in
      let on = OfLoop-later q (read n value) acts (λ as'. refl) inv.of_loop in
      elim (Try-cases (unmarshal value)) [
        | inl (c, h) ↦
            rw (h, received)
              (record { safe = inv.safe; of_consumer = (here, h, inv.accounts); of_loop = on })
        | inr (x, h) ↦
            rw (h, received)
              (record {
                safe = ((here, inr (x, h, in_loop q, in_loop_one q, inv.accounts)), inv.safe);
                of_consumer = tt;
                of_loop = OfLoop-later q (acked n) (read n value ∷ acts) (λ as'. refl) on;
              })
      ]

  pass-Kept :
      (p : Consumer) (q : Loop) (acts : List Act)
      → Inv (record { consumer = p; loop = q; acts = acts })
      → Kept (pass unmarshal p q (record { consumer = p; loop = q; acts = acts }))
  unfolding pass
  pass-Kept (offering n c) idle acts inv = record {
    safe = inv.safe;
    of_consumer = tt;
    of_loop = inv.of_consumer;
  }
  pass-Kept (offering n c) (busy m d) acts inv = kept inv
  pass-Kept (offering n c) (settled m) acts inv = kept inv
  pass-Kept fetching q acts inv = kept inv
  pass-Kept stopped q acts inv = kept inv

  handled-OfConsumer :
      (p : Consumer) (n : ℕ) (c : Continuation) (acts : List Act)
      → OfConsumer p (busy n c) acts
      → OfConsumer p (settled n) (handled n c ∷ acts)
  handled-OfConsumer fetching n c acts h = tt
  handled-OfConsumer stopped n c acts h = tt
  handled-OfConsumer (offering k d) n c acts (s, e, h) = (spot_later (handled n c) s, e, h)

  acked-OfConsumer :
      (p : Consumer) (n : ℕ) (acts : List Act)
      → OfConsumer p (settled n) acts
      → OfConsumer p idle (acked n ∷ acts)
  acked-OfConsumer fetching n acts h = tt
  acked-OfConsumer stopped n acts h = tt
  acked-OfConsumer (offering k d) n acts (s, e, h) = (spot_later (acked n) s, e, h)

  step-Kept :
      (m : Move) (p : Consumer) (q : Loop) (acts : List Act)
      → Inv (record { consumer = p; loop = q; acts = acts })
      → Kept (advance unmarshal m (record { consumer = p; loop = q; acts = acts }))
  unfolding advance
  step-Kept (fetched n value) fetching q acts inv = received-Kept n value q acts inv
  step-Kept (fetched n value) (offering k c) q acts inv = kept inv
  step-Kept (fetched n value) stopped q acts inv = kept inv
  step-Kept (fetch_failed true) fetching q acts inv = record {
    safe = inv.safe;
    of_consumer = tt;
    of_loop = inv.of_loop;
  }
  step-Kept (fetch_failed false) fetching q acts inv = kept inv
  step-Kept (fetch_failed ended) (offering k c) q acts inv = kept inv
  step-Kept (fetch_failed ended) stopped q acts inv = kept inv
  step-Kept passed p q acts inv = pass-Kept p q acts inv
  step-Kept cancelled fetching q acts inv = kept inv
  step-Kept cancelled (offering k c) q acts inv = record {
    safe = inv.safe;
    of_consumer = tt;
    of_loop = inv.of_loop;
  }
  step-Kept cancelled stopped q acts inv = kept inv
  step-Kept handle_returned p (busy n c) acts inv =
      let (s, e, h) = inv.of_loop in
      record {
        safe = inv.safe;
        of_consumer = handled-OfConsumer p n c acts inv.of_consumer;
        of_loop = (spot_later (handled n c) s, c, e, ap (◌∷◌ (n, c)) h);
      }
  step-Kept handle_returned p idle acts inv = kept inv
  step-Kept handle_returned p (settled n) acts inv = kept inv
  step-Kept ack_returned p (settled n) acts inv =
      let (s, c, e, h) = inv.of_loop in
      record {
        safe = ((s, inl (c, e, h)), inv.safe);
        of_consumer = acked-OfConsumer p n acts inv.of_consumer;
        of_loop = tt;
      }
  step-Kept ack_returned p idle acts inv = kept inv
  step-Kept ack_returned p (busy n c) acts inv = kept inv

  run-IsSafe : (ms : List Move) (l : Line) → Inv l → IsSafe (run_moves unmarshal ms l).acts
  unfolding run_moves
  run-IsSafe [] l inv = inv.safe
  run-IsSafe (m ∷ ms) l inv =
      let k = step-Kept m l.consumer l.loop l.acts inv in
      run-IsSafe ms (advance unmarshal m l) (record {
        safe = k.safe;
        accounts = step-Accounts unmarshal m l.consumer l.loop l.acts inv.accounts;
        of_consumer = k.of_consumer;
        of_loop = k.of_loop;
      })

  safe_split :
      (n : ℕ) (later earlier : List Act) → IsSafe (later ++ acked n ∷ earlier) → IsCovered n earlier
  safe_split n [] earlier h = h.0
  safe_split n (read m value ∷ later) earlier h = safe_split n later earlier h
  safe_split n (handled m c ∷ later) earlier h = safe_split n later earlier h
  safe_split n (acked m ∷ later) earlier h = safe_split n later earlier h.1

  -- In every interleaving, when a message is committed, it was read. If it holds a continuation, then
  -- that one and all that were read before it have been handled, each once and in their order. If it
  -- cannot be decoded, then all that were read before it have been, but for at most one, the latest: so
  -- a commit, which covers the messages before the one it names too, covers at most one continuation
  -- that was read and not handled.
  pub acknowledged-IsCovered :
      (ms : List Move) (n : ℕ) (later earlier : List Act)
      → (run_moves unmarshal ms start).acts ≡ later ++ acked n ∷ earlier
      → IsCovered n earlier
  acknowledged-IsCovered ms n later earlier e = safe_split n later earlier (
      subst (λ acts. IsSafe acts) e
        (run-IsSafe ms start
          (record { safe = tt; accounts = refl; of_consumer = tt; of_loop = tt })))
