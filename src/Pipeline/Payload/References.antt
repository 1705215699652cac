-- ===== src/Pipeline/Payload/References.antt =====
-- The references of a payload: how many scanners count, and what each end of a task does to them.
use s3nitor.Prelude.{
  ℕ, zero, suc, ◌+◌, ◌<◌, ◌≤◌, ◌^◌, ◌≡◌, refl, ap, ◌∙◌, subst, ◌⊎◌, inl, inr, Bool, true, false,
  Bool-cases, str_eq, List, [], ◌∷◌, ◌++◌, map, arith, if◌then◌else◌,
}
use s3nitor.Prelude.Int.{pos, ◌-ℤ◌, leb_ℤ, wrap32, wrap32_of_pos, int_laws, eq_of_parts}
use s3nitor.Scanner.{Scanner}
use s3nitor.Pipeline.Payload.{
  Payload, free, drop_ref, done, Stop, Move, goes, parks, stops, move_of, readers, give_up_ref,
  all_ended,
}

-- How many of some scanners pass a test.
abbrev pub count : (Scanner → Bool) → List Scanner → ℕ
count p [] = 0
count p (s ∷ ss) = let n = count p ss in if p s then suc n else n

count-append :
    (p : Scanner → Bool) (ss ts : List Scanner) → count p (ss ++ ts) ≡ count p ss + count p ts
count-append p [] ts = omega arith
count-append p (s ∷ ss) ts = ground (arith, count-append p ss ts)

abbrev pub readers_in : List Scanner → ℕ
readers_in ss = count (λ s. s.needs_payload) ss

-- The scanners of the lanes, in their order.
abbrev pub scanners_of : List Stop → List Scanner
scanners_of ls = map (λ l. l.scanner) ls

pub readers_eq : (ls : List Stop) → readers ls ≡ readers_in (scanners_of ls)
unfolding readers
readers_eq [] = refl
readers_eq (l ∷ ls) = rw (readers_eq ls) refl

-- The readers behind the lane at which the dispatcher stopped. There are none if it did not stop.
abbrev pub left_behind : List Stop → ℕ
left_behind [] = 0
left_behind (l ∷ ls) = elim (move_of l.policy l.met) [
  | goes ↦ left_behind ls
  | parks ↦ left_behind ls
  | stops ↦ readers_in (scanners_of ls)
]

pub Move-cases : (m : Move) → (m ≡ goes) ⊎ (m ≡ parks) ⊎ (m ≡ stops)
Move-cases goes = inl refl
Move-cases parks = inr (inl refl)
Move-cases stops = inr (inr refl)

-- The files that a payload has to remove.
abbrev file_count : Payload → ℕ
file_count p = if str_eq p.input.local_path "" then 0 else 1

-- `n` references are out: the file and the bytes are held while there are any, and have been given
-- back once when there are none.
abbrev pub IsCounted : ℕ → Payload → Type 0
IsCounted zero p =
    (p.refs ≡ pos 0) × (p.is_freed ≡ true) × (p.releases ≡ 1) × (p.removals ≡ file_count p)
IsCounted (suc n) p =
    (p.refs ≡ pos (suc n)) × (p.is_freed ≡ false) × (p.releases ≡ 0) × (p.removals ≡ 0)

-- A payload that fetch handed over.
abbrev pub IsFresh : Payload → Type 0
IsFresh p = (p.is_freed ≡ false) × (p.releases ≡ 0) × (p.removals ≡ 0)

dec_pos : (n : ℕ) → n < 2 ^ 31 → wrap32 (pos (suc n) -ℤ pos 1) ≡ pos n
dec_pos n h =
    ap wrap32 (eq_of_parts (pos (suc n) -ℤ pos 1) (pos n) (omega int_laws)) ∙ wrap32_of_pos n h

drop_ref-refs :
    (n : ℕ) (p : Payload) → suc n < 2 ^ 31 → p.refs ≡ pos (suc n) → (drop_ref p).refs ≡ pos n
unfolding drop_ref
drop_ref-refs n p h r = ap (λ z. wrap32 (z -ℤ pos 1)) r ∙ dec_pos n (omega arith)

free-IsCounted : (p : Payload) → IsFresh p → p.refs ≡ pos 0 → IsCounted 0 (free p)
unfolding free
free-IsCounted p (f, l, m) r = rw (f, l, m) (r, refl, refl, refl)

drop_ref-IsFresh : (p : Payload) → IsFresh p → IsFresh (drop_ref p)
unfolding drop_ref
drop_ref-IsFresh p h = h

none_left : (q : Payload) → q.refs ≡ pos 0 → leb_ℤ q.refs (pos 0) ≡ true
none_left q r = rw r refl

some_left : (n : ℕ) (q : Payload) → q.refs ≡ pos (suc n) → leb_ℤ q.refs (pos 0) ≡ false
some_left n q r = rw r (ground arith)

freed_if_last :
    (n : ℕ) (q : Payload)
    → IsFresh q
    → q.refs ≡ pos n
    → IsCounted n (if leb_ℤ q.refs (pos 0) then free q else q)
freed_if_last zero q h r = rw (none_left q r) (free-IsCounted q h r)
freed_if_last (suc n) q h r = rw (some_left n q r) (r, h.0, h.1, h.2)

done-IsCounted : (n : ℕ) (p : Payload) → suc n < 2 ^ 31 → IsCounted (suc n) p → IsCounted n (done p)
unfolding done
done-IsCounted n p h (r, f, l, m) =
    freed_if_last n (drop_ref p) (drop_ref-IsFresh p (f, l, m)) (drop_ref-refs n p h r)

-- The references with one more for a scanner that reads.
abbrev with_one : Scanner → ℕ → ℕ
with_one s n = if s.needs_payload then suc n else n

pub with_one_eq :
    (s : Scanner) (ss : List Scanner) (n : ℕ)
    → readers_in (s ∷ ss) + n ≡ with_one s (readers_in ss + n)
with_one_eq s ss n = ground arith

pub queued_eq :
    (s : Scanner) (ss q : List Scanner)
    → readers_in (s ∷ ss) + readers_in q ≡ readers_in ss + readers_in (q ++ s ∷ [])
queued_eq s ss q = ground (arith, count-append (λ t. t.needs_payload) q (s ∷ []))

pub with_one_le : (s : Scanner) (n : ℕ) → n ≤ with_one s n
with_one_le s n = ground arith

pub give_up_ref-IsCounted :
    (s : Scanner) (n : ℕ) (p : Payload)
    → with_one s n < 2 ^ 31
    → IsCounted (with_one s n) p
    → IsCounted n (give_up_ref s p)
unfolding give_up_ref
give_up_ref-IsCounted s n p h c = elim (Bool-cases s.needs_payload) [
  | inl reads ↦ rw reads (done-IsCounted n p (rw reads at h) (rw reads at c))
  | inr other ↦ rw other (rw other at c)
]

pub all_ended-IsCounted :
    (ss : List Scanner) (n : ℕ) (p : Payload)
    → readers_in ss + n < 2 ^ 31
    → IsCounted (readers_in ss + n) p
    → IsCounted n (all_ended ss p)
unfolding all_ended
all_ended-IsCounted [] n p h c = subst (λ m. IsCounted m p) (omega arith) c
all_ended-IsCounted (s ∷ ss) n p h c =
    let e = with_one_eq s ss n in
    all_ended-IsCounted ss n (give_up_ref s p) (omega (arith, e, with_one_le s (readers_in ss + n)))
      (give_up_ref-IsCounted s (readers_in ss + n) p (omega (arith, e))
        (subst (λ m. IsCounted m p) e c))

pub refs_stored :
    (n : ℕ) (p : Payload)
    → n < 2 ^ 31
    → IsFresh p
    → IsCounted n (record (if leb_ℤ (pos n) (pos 0) then free p else p) { refs = wrap32 (pos n) })
unfolding free
refs_stored zero p h (f, l, m) = rw (f, l, m) (wrap32_of_pos 0 h, refl, refl, refl)
refs_stored (suc n) p h (f, l, m) =
    let t : leb_ℤ (pos (suc n)) (pos 0) ≡ false = ground arith in
    rw t (wrap32_of_pos (suc n) h, f, l, m)
