-- ===== src/Async/Broker/Once.antt =====
-- internal/async/kafka.go, worker.go: which continuations are handled, how often and in which order.
use s3nitor.Prelude.{
  ℕ, ◌≡◌, refl, sym, ap, subst, ◌∙◌, inl, inr, true, false, List, [], ◌∷◌, ◌++◌, append_assoc,
}
use s3nitor.Fallible.{Try, ok, err, Try-cases}
use s3nitor.Async.Continuation.{Continuation}
use s3nitor.Async.Broker.{
  Act, read, handled, acked, Consumer, fetching, offering, stopped, Loop, idle, busy, settled, Line,
  Move, fetched, fetch_failed, passed, cancelled, handle_returned, ack_returned, start, received,
  pass, advance, run_moves,
}

abbrev pub Named : Type 0
Named = ℕ × Continuation

-- The continuations that were handled, with the offsets of their messages, the latest first.
abbrev pub handled_of : List Act → List (ℕ × Continuation)
handled_of [] = []
handled_of (read n value ∷ acts) = handled_of acts
handled_of (handled n c ∷ acts) = (n, c) ∷ handled_of acts
handled_of (acked n ∷ acts) = handled_of acts

abbrev pub in_loop : Loop → List Named
in_loop (busy n c) = (n, c) ∷ []
in_loop idle = []
in_loop (settled n) = []

module _ (unmarshal : List ℕ → Try Continuation) where
  abbrev pub held : ℕ → Try Continuation → List Named
  held n (ok c) = (n, c) ∷ []
  held n (err e) = []

  -- The continuations that were read, the latest first.
  abbrev pub read_of : List Act → List (ℕ × Continuation)
  read_of [] = []
  read_of (read n value ∷ acts) = held n (unmarshal value) ++ read_of acts
  read_of (handled n c ∷ acts) = read_of acts
  read_of (acked n ∷ acts) = read_of acts

  -- What was read is under way or handled, but for what the consumer dropped when it stopped.
  abbrev pub Accounts : Consumer → Loop → List Act → Type 0
  Accounts fetching q acts = read_of acts ≡ in_loop q ++ handled_of acts
  Accounts (offering n c) q acts = read_of acts ≡ (n, c) ∷ in_loop q ++ handled_of acts
  Accounts stopped q acts =
      (rest : List Named) × (read_of acts ≡ rest ++ (in_loop q ++ handled_of acts))

  received-Accounts :
      (n : ℕ) (value : List ℕ) (q : Loop) (acts : List Act)
      → Accounts fetching q acts
      → let l =
          received unmarshal n value (record { consumer = fetching; loop = q; acts = acts }) in
        Accounts l.consumer l.loop l.acts
  unfolding received
  received-Accounts n value q acts h = elim (Try-cases (unmarshal value)) [
    | inl (c, e) ↦ rw (e, received) (ap (λ t. held n t ++ read_of acts) e ∙ ap (◌∷◌ (n, c)) h)
    | inr (x, e) ↦ rw (e, received) (ap (λ t. held n t ++ read_of acts) e ∙ h)
  ]

  pub step-Accounts :
      (m : Move) (p : Consumer) (q : Loop) (acts : List Act)
      → Accounts p q acts
      → let l = advance unmarshal m (record { consumer = p; loop = q; acts = acts }) in
        Accounts l.consumer l.loop l.acts
  unfolding advance pass
  step-Accounts (fetched n value) fetching q acts h = received-Accounts n value q acts h
  step-Accounts (fetched n value) (offering k c) q acts h = h
  step-Accounts (fetched n value) stopped q acts h = h
  step-Accounts (fetch_failed true) fetching q acts h = ([], h)
  step-Accounts (fetch_failed false) fetching q acts h = h
  step-Accounts (fetch_failed ended) (offering k c) q acts h = h
  step-Accounts (fetch_failed ended) stopped q acts h = h
  step-Accounts passed fetching q acts h = h
  step-Accounts passed stopped q acts h = h
  step-Accounts passed (offering n c) idle acts h = h
  step-Accounts passed (offering n c) (busy m d) acts h = h
  step-Accounts passed (offering n c) (settled m) acts h = h
  step-Accounts cancelled fetching q acts h = h
  step-Accounts cancelled (offering k c) q acts h = ((k, c) ∷ [], h)
  step-Accounts cancelled stopped q acts h = h
  step-Accounts handle_returned fetching (busy n c) acts h = h
  step-Accounts handle_returned (offering k d) (busy n c) acts h = h
  step-Accounts handle_returned stopped (busy n c) acts h = h
  step-Accounts handle_returned p idle acts h = h
  step-Accounts handle_returned p (settled n) acts h = h
  step-Accounts ack_returned fetching (settled n) acts h = h
  step-Accounts ack_returned (offering k d) (settled n) acts h = h
  step-Accounts ack_returned stopped (settled n) acts h = h
  step-Accounts ack_returned p idle acts h = h
  step-Accounts ack_returned p (busy n c) acts h = h

  run-Accounts :
      (ms : List Move) (l : Line)
      → Accounts l.consumer l.loop l.acts
      → let l' = run_moves unmarshal ms l in Accounts l'.consumer l'.loop l'.acts
  unfolding run_moves
  run-Accounts [] l h = h
  run-Accounts (m ∷ ms) l h =
      run-Accounts ms (advance unmarshal m l) (step-Accounts m l.consumer l.loop l.acts h)

  Accounts-first :
      (p : Consumer) (q : Loop) (acts : List Act)
      → Accounts p q acts
      → (rest : List Named) × (read_of acts ≡ rest ++ handled_of acts)
  Accounts-first fetching q acts h = (in_loop q, h)
  Accounts-first (offering n c) q acts h = ((n, c) ∷ in_loop q, h)
  Accounts-first stopped q acts h =
      let (rest, e) = h in
      (rest ++ in_loop q, e ∙ sym (append_assoc rest (in_loop q) (handled_of acts)))

  -- In every interleaving, the continuations that were handled are the first of those that were read
  -- from the topic, each once and in their order. While the consumer runs and neither goroutine has one
  -- in hand, they are all of them.
  pub handled_in_order :
      (ms : List Move)
      → let l = run_moves unmarshal ms start in
        ((rest : List (ℕ × Continuation)) × (read_of l.acts ≡ rest ++ handled_of l.acts))
        × (l.consumer ≡ fetching → l.loop ≡ idle → read_of l.acts ≡ handled_of l.acts)
  handled_in_order ms =
      let l = run_moves unmarshal ms start in
      let h = run-Accounts ms start refl in
      (
        Accounts-first l.consumer l.loop l.acts h,
        λ e e'.
            subst (λ p. Accounts p idle l.acts) e (subst (λ q. Accounts l.consumer q l.acts) e' h),
      )
