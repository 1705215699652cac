-- ===== src/Limiter/Moves.antt =====
-- limiter.go: what one atomic action moves, in the gate and in the count, among the other calls.
use s3nitor.Prelude.{
  ℕ, zero, suc, ◌≡◌, refl, subst, ◌∙◌, ◌^◌, ◌<◌, Option-cases, inl, inr, List, [], ◌∷◌, All, arith,
}
use s3nitor.Prelude.Int.{
  ℤ, pos, negsuc, pos_part, ◌+ℤ◌, ◌-ℤ◌, ◌≤ℤ◌, wrap64, wrap64_of_fits, int_laws, +ℤ_frame,
  +ℤ_frame_left,
}
use s3nitor.Limiter.Gate.{Gate}
use s3nitor.Limiter.Admission.{
  Phase, waiting, entered, admitted, leaving, left, gone, refused, Counter, advance, advance_at,
}
use s3nitor.Limiter.Shares.{
  gate_share, count_share, gate_total, count_total, IsSound, shares, totals,
}

module _ (g : Gate) where
  -- What the other calls leave to one of them.
  record Room (cap : ℤ) (c : Counter g) (p : Phase) : Type 0 where
    sound : IsSound g p
    share : gate_share p ≤ℤ g.held c.gate
    counted : count_share p ≤ℤ c.in_flight
    slack : c.in_flight +ℤ gate_share p ≤ℤ g.held c.gate +ℤ count_share p
    fits : g.held c.gate ≤ℤ cap
    same : g.capacity c.gate ≡ cap

  -- One atomic action moves the gate and the count by what the call's shares move.
  record Moved (cap : ℤ) (c : Counter g) (p : Phase) (c' : Counter g) (p' : Phase) : Type 0 where
    sound : IsSound g p'
    gate : g.held c'.gate +ℤ gate_share p ≡ g.held c.gate +ℤ gate_share p'
    count : c'.in_flight +ℤ count_share p ≡ c.in_flight +ℤ count_share p'
    fits : g.held c'.gate ≤ℤ cap
    same : g.capacity c'.gate ≡ cap

  -- The same of several calls.
  pub record RoomAll (cap : ℤ) (c : Counter g) (ps : List Phase) : Type 0 where
    pub sound : All (IsSound g) ps
    pub share : gate_total ps ≤ℤ g.held c.gate
    pub counted : count_total ps ≤ℤ c.in_flight
    pub slack : c.in_flight +ℤ gate_total ps ≤ℤ g.held c.gate +ℤ count_total ps
    pub fits : g.held c.gate ≤ℤ cap
    pub same : g.capacity c.gate ≡ cap

  pub record MovedAll (cap : ℤ) (c : Counter g) (ps : List Phase) (c' : Counter g)
      (ps' : List Phase) : Type 0 where
    pub sound : All (IsSound g) ps'
    pub gate : g.held c'.gate +ℤ gate_total ps ≡ g.held c.gate +ℤ gate_total ps'
    pub count : c'.in_flight +ℤ count_total ps ≡ c.in_flight +ℤ count_total ps'
    pub fits : g.held c'.gate ≤ℤ cap
    pub same : g.capacity c'.gate ≡ cap

  Room-head :
      (cap : ℤ) (c : Counter g) (p : Phase) (ps : List Phase)
      → RoomAll cap c (p ∷ ps)
      → Room cap c p
  Room-head cap c p ps r =
      let (l, h) = totals g ps r.sound.1 in
      record {
        sound = r.sound.0;
        share = omega (int_laws, r.share);
        counted = omega (int_laws, r.counted);
        slack = omega (int_laws, r.slack);
        fits = r.fits;
        same = r.same;
      }

  room_tail :
      (cap : ℤ) (c : Counter g) (p : Phase) (ps : List Phase)
      → RoomAll cap c (p ∷ ps)
      → RoomAll cap c ps
  room_tail cap c p ps r =
      let (l, h) = shares g p r.sound.0 in
      record {
        sound = r.sound.1;
        share = omega (int_laws, r.share);
        counted = omega (int_laws, r.counted);
        slack = omega (int_laws, r.slack);
        fits = r.fits;
        same = r.same;
      }

  module _ (cap : ℤ) (int64 : pos_part cap < 2 ^ 63) where
    no_wrap : (a : ℤ) → pos 0 ≤ℤ a → a ≤ℤ cap → wrap64 a ≡ a
    no_wrap (pos n) l h =
        wrap64_of_fits (pos n) (record { above = omega arith; below = omega arith })
    no_wrap (negsuc n) l h = absurd (omega arith)

    still : (c : Counter g) (p : Phase) → Room cap c p → Moved cap c p c p
    still c p r = record {
      sound = r.sound;
      gate = refl;
      count = refl;
      fits = r.fits;
      same = r.same;
    }

    advance-Moved :
        (c : Counter g) (p : Phase)
        → Room cap c p
        → Moved cap c p (advance g c p).0 (advance g c p).1
    unfolding advance
    advance-Moved c (waiting w) r = elim (Option-cases (g.enter w c.gate)) [
      | inl e ↦ rw (e, advance) (still c (waiting w) r)
      | inr (s, e) ↦
          rw (e, advance)
            (record {
              sound = r.sound;
              gate = rw (g.enter-held w c.gate s r.sound e) (omega int_laws);
              count = refl;
              fits =
                  subst (λ x. g.held s ≤ℤ x) (g.enter-capacity w c.gate s r.sound e ∙ r.same)
                    (g.enter_fits w c.gate s r.sound e);
              same = g.enter-capacity w c.gate s r.sound e ∙ r.same;
            })
    ]
    advance-Moved c (entered w) r =
        let e =
          no_wrap (c.in_flight +ℤ w) (omega (int_laws, g.allowed_pos w r.sound))
            (omega (int_laws, r.slack, r.fits)) in
        record {
          sound = r.sound;
          gate = refl;
          count = rw e (omega int_laws);
          fits = r.fits;
          same = r.same;
        }
    advance-Moved c (admitted w) r = record {
      sound = r.sound;
      gate = refl;
      count = refl;
      fits = r.fits;
      same = r.same;
    }
    advance-Moved c (leaving w) r =
        let e =
          no_wrap (c.in_flight -ℤ w) (omega (int_laws, r.counted))
            (omega (int_laws, r.slack, r.fits, g.allowed_pos w r.sound)) in
        record {
          sound = r.sound;
          gate = refl;
          count = rw e (omega int_laws);
          fits = r.fits;
          same = r.same;
        }
    advance-Moved c (left w) r =
        let (s, e, h, same) = g.leave_held w c.gate r.sound r.share in
        rw (e, advance)
          (record {
            sound = tt;
            gate = rw h (omega int_laws);
            count = refl;
            fits = rw h (omega (int_laws, r.fits, g.allowed_pos w r.sound));
            same = same ∙ r.same;
          })
    advance-Moved c gone r = still c gone r
    advance-Moved c refused r = still c refused r

    pub advance_at-MovedAll :
        (i : ℕ) (c : Counter g) (ps : List Phase)
        → RoomAll cap c ps
        → MovedAll cap c ps (advance_at g i c ps).0 (advance_at g i c ps).1
    unfolding advance_at
    advance_at-MovedAll i c [] r = record {
      sound = tt;
      gate = refl;
      count = refl;
      fits = r.fits;
      same = r.same;
    }
    advance_at-MovedAll zero c (p ∷ ps) r =
        let m = advance-Moved c p (Room-head cap c p ps r) in
        record {
          sound = (m.sound, r.sound.1);
          gate = +ℤ_frame _ _ _ _ (gate_total ps) m.gate;
          count = +ℤ_frame _ _ _ _ (count_total ps) m.count;
          fits = m.fits;
          same = m.same;
        }
    advance_at-MovedAll (suc i) c (p ∷ ps) r =
        let m = advance_at-MovedAll i c ps (room_tail cap c p ps r) in
        record {
          sound = (r.sound.0, m.sound);
          gate = +ℤ_frame_left _ _ _ _ (gate_share p) m.gate;
          count = +ℤ_frame_left _ _ _ _ (count_share p) m.count;
          fits = m.fits;
          same = m.same;
        }
