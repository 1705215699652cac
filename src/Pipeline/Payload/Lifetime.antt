-- ===== src/Pipeline/Payload/Lifetime.antt =====
-- payload and runDispatch: when the file and the bytes of a payload are given back.
use s3nitor.Prelude.{ℕ, ◌+◌, ◌<◌, ◌≤◌, ◌^◌, ◌≡◌, ◌∙◌, subst, inl, inr, List, [], ◌∷◌, arith}
use s3nitor.Scanner.{Scanner, Time, Duration}
use s3nitor.Ledger.{TaskTable}
use s3nitor.Pipeline.Payload.{
  Payload, Stop, move_of, readers, give_up_ref, Fanout, spill, enqueue, fan_out, with_refs,
  dispatch, all_ended,
}
use s3nitor.Pipeline.Payload.References.{
  readers_in, scanners_of, readers_eq, left_behind, Move-cases, IsCounted, IsFresh, with_one_eq,
  queued_eq, with_one_le, give_up_ref-IsCounted, all_ended-IsCounted, refs_stored,
}

module _ (db : TaskTable) (wait : Duration) (clock : Scanner → Time) where
  fan_out-IsCounted :
      (ls : List Stop) (w : Fanout db wait)
      → readers_in (scanners_of ls) + readers_in w.queued < 2 ^ 31
      → IsCounted (readers_in (scanners_of ls) + readers_in w.queued) w.payload
      → IsCounted
          (readers_in (fan_out db wait clock ls w).queued + left_behind ls)
          (fan_out db wait clock ls w).payload
  unfolding fan_out enqueue spill
  fan_out-IsCounted [] w h c = subst (λ m. IsCounted m w.payload) (omega arith) c
  fan_out-IsCounted (l ∷ ls) w h c = elim (Move-cases (move_of l.policy l.met)) [
    | inl e ↦
        let q = queued_eq l.scanner (scanners_of ls) w.queued in
        rw (e, fan_out, left_behind)
          (fan_out-IsCounted ls (enqueue db wait l.scanner w) (omega (arith, q))
            (subst (λ m. IsCounted m w.payload) q c))
    | inr (inl e) ↦
        let g = with_one_eq l.scanner (scanners_of ls) (readers_in w.queued) in
        rw (e, fan_out, left_behind)
          (fan_out-IsCounted ls (spill db wait l.scanner (clock l.scanner) w)
            (omega
              (arith, g, with_one_le l.scanner (readers_in (scanners_of ls) + readers_in w.queued)))
            (give_up_ref-IsCounted l.scanner _ w.payload (omega (arith, g))
              (subst (λ m. IsCounted m w.payload) g c)))
    | inr (inr e) ↦
        let g = with_one_eq l.scanner (scanners_of ls) (readers_in w.queued) in
        rw (e, fan_out, left_behind)
          (subst (λ m. IsCounted m (give_up_ref l.scanner w.payload)) (omega arith)
            (give_up_ref-IsCounted l.scanner (readers_in (scanners_of ls) + readers_in w.queued)
              w.payload (omega (arith, g)) (subst (λ m. IsCounted m w.payload) g c)))
  ]

  fan_out_bound :
      (ls : List Stop) (w : Fanout db wait)
      → readers_in (fan_out db wait clock ls w).queued + left_behind ls
        ≤ readers_in (scanners_of ls) + readers_in w.queued
  unfolding fan_out enqueue spill
  fan_out_bound [] w = omega arith
  fan_out_bound (l ∷ ls) w =
      let g = with_one_eq l.scanner (scanners_of ls) (readers_in w.queued) in
      let m = with_one_le l.scanner (readers_in (scanners_of ls) + readers_in w.queued) in
      elim (Move-cases (move_of l.policy l.met)) [
        | inl e ↦
            let q = queued_eq l.scanner (scanners_of ls) w.queued in
            rw (e, fan_out, left_behind)
              (omega (arith, q, fan_out_bound ls (enqueue db wait l.scanner w)))
        | inr (inl e) ↦
            rw (e, fan_out, left_behind)
              (omega (arith, g, m, fan_out_bound ls (spill db wait l.scanner (clock l.scanner) w)))
        | inr (inr e) ↦ rw (e, fan_out, left_behind) (omega (arith, g, m))
      ]

  with_refs-IsCounted :
      (ls : List Stop) (p : Payload)
      → readers ls < 2 ^ 31
      → IsFresh p
      → IsCounted (readers ls) (with_refs db wait ls p)
  unfolding with_refs
  with_refs-IsCounted ls p h fresh = refs_stored (readers ls) p h fresh

  -- After a dispatch, and after any of the queued tasks have ended, the payload's references are
  -- those of the queued tasks that have not ended, and of the readers behind a lane at which the
  -- dispatcher stopped as the context ended. While there is a reference the file and the bytes are
  -- held, and when there is none they have been given back exactly once.
  pub dispatch-IsCounted :
      (ls : List Stop) (p : Payload) (ledger : db.State) (ended : List Scanner) (left : ℕ)
      → readers ls < 2 ^ 31
      → IsFresh p
      → readers_in ended + left ≡ readers_in (dispatch db wait clock ls p ledger).queued
      → IsCounted
          (left + left_behind ls)
          (all_ended ended (dispatch db wait clock ls p ledger).payload)
  unfolding dispatch
  dispatch-IsCounted ls p ledger ended left h fresh e =
      let p₀ = with_refs db wait ls p in
      let w₀ : Fanout db wait = record {
        payload = p₀;
        ledger = ledger;
        queued = [];
        spilled = [];
      } in
      let r = readers_eq ls in
      let counted =
        fan_out-IsCounted ls w₀ (omega (arith, r))
          (subst (λ m. IsCounted m p₀) (r ∙ omega arith) (with_refs-IsCounted ls p h fresh)) in
      all_ended-IsCounted ended (left + left_behind ls) _ (omega (arith, e, r, fan_out_bound ls w₀))
        (subst (λ m. IsCounted m (fan_out db wait clock ls w₀).payload) (omega (arith, e)) counted)
