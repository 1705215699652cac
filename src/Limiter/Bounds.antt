-- ===== src/Limiter/Bounds.antt =====
-- limiter.go: the invariant of any interleaving of the atomic actions.
use s3nitor.Prelude.{ℕ, ◌≡◌, sym, ◌∙◌, ◌^◌, ◌<◌, Option, some, List, [], ◌∷◌, All, arith}
use s3nitor.Prelude.Int.{ℤ, pos_part, ◌≤ℤ◌, int_laws, +ℤ_settle}
use s3nitor.Limiter.Gate.{Gate}
use s3nitor.Limiter.Admission.{Action, arrive, move, cancel, System, advance_at, act, run}
use s3nitor.Limiter.Shares.{IsSound, gate_total, count_total, give_up_at-same, first-IsSound}
use s3nitor.Limiter.Moves.{RoomAll, advance_at-MovedAll}

module _ (g : Gate) where
  module _ (cap : ℤ) (int64 : pos_part cap < 2 ^ 63) where
    -- The gate holds exactly what the calls have taken from it, and the count of work in flight is
    -- that of the calls whose caller has the release function and has not called it to the end.
    pub record Inv (s : System g) : Type 0 where
      pub sound : All (IsSound g) s.calls
      pub gate : g.held s.counter.gate ≡ gate_total s.calls
      pub count : s.counter.in_flight ≡ count_total s.calls
      pub fits : g.held s.counter.gate ≤ℤ cap
      pub same : g.capacity s.counter.gate ≡ cap

    room : (s : System g) → Inv s → RoomAll g cap s.counter s.calls
    room s v = record {
      sound = v.sound;
      share = rw v.gate (omega arith);
      counted = rw v.count (omega arith);
      slack = rw (v.gate, v.count) (omega int_laws);
      fits = v.fits;
      same = v.same;
    }

    move-Inv :
        (s : System g) (i : ℕ)
        → Inv s
        → (let (c, ps) = advance_at g i s.counter s.calls in
            Inv (record { counter = c; calls = ps }))
    move-Inv s i v =
        let m = advance_at-MovedAll g cap int64 i s.counter s.calls (room s v) in
        record {
          sound = m.sound;
          gate = +ℤ_settle _ _ _ _ m.gate v.gate;
          count = +ℤ_settle _ _ _ _ m.count v.count;
          fits = m.fits;
          same = m.same;
        }

  module _ (cap : ℤ) (int64 : pos_part cap < 2 ^ 63) (weigh : ℤ → Option ℤ)
      (ok : (w n : ℤ) → weigh w ≡ some n → g.Allowed n) where
    act-Inv : (s : System g) (a : Action) → Inv cap int64 s → Inv cap int64 (act g weigh s a)
    unfolding act
    act-Inv s (arrive w) v =
        let (sound, h, c) = first-IsSound g weigh ok w in
        record {
          sound = (sound, v.sound);
          gate = rw (h, v.gate) (omega int_laws);
          count = rw (c, v.count) (omega int_laws);
          fits = v.fits;
          same = v.same;
        }
    act-Inv s (move i) v = move-Inv cap int64 s i v
    act-Inv s (cancel i) v =
        let (sound, h, c) = give_up_at-same g i s.calls v.sound in
        record {
          sound = sound;
          gate = v.gate ∙ sym h;
          count = v.count ∙ sym c;
          fits = v.fits;
          same = v.same;
        }

    pub run-Inv :
        (as' : List Action) (s : System g) → Inv cap int64 s → Inv cap int64 (run g weigh s as')
    unfolding run
    run-Inv [] s v = v
    run-Inv (a ∷ as') s v = run-Inv as' (act g weigh s a) (act-Inv s a v)
