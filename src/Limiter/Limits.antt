-- ===== src/Limiter/Limits.antt =====
-- limiter.go: the work in flight and the budget of the two limiters, for every schedule.
use s3nitor.Prelude.{◌≡◌, refl, ap, ◌∙◌, ◌^◌, ◌<◌, ◌⊎◌, String, none, some, List, [], All, arith}
use s3nitor.Prelude.Int.{ℤ, pos, pos_part, ◌≤ℤ◌, ◌<ℤ◌}
use s3nitor.Limiter.Gate.{Gate, Semaphore, chan_gate, semaphore_gate}
use s3nitor.Limiter.Admission.{Action, System, run}
use s3nitor.Limiter.Bounds.{Inv, run-Inv}
use s3nitor.Limiter.Shares.{IsIdle, idle_totals, totals}
use s3nitor.Limiter.{
  FixedLimiter, ByteLimiter, new_fixed_limiter, new_byte_limiter, fixed_weight, byte_weight,
}

-- A limiter before any call.
abbrev byte_system : (sem : Semaphore) → ByteLimiter sem → System (semaphore_gate sem)
byte_system sem l = record {
  counter = record { gate = l.bytes; in_flight = l.in_flight };
  calls = [];
}

abbrev fixed_system : FixedLimiter → System chan_gate
fixed_system l = record { counter = record { gate = l.slots; in_flight = l.in_flight }; calls = [] }

byte_weight-allowed :
    (budget w n : ℤ) → pos 1 ≤ℤ budget → byte_weight budget w ≡ some n → pos 1 ≤ℤ n
unfolding byte_weight
byte_weight-allowed budget w n h e = ground arith

-- A weight that is not negative is admitted as itself where it lies between 1 and the budget, as 1
-- where it is 0, and as the whole budget where it is larger; a negative weight is refused.
byte_weight_cases :
    (budget w : ℤ)
    → pos 1 ≤ℤ budget
    → ((w <ℤ pos 0) × (byte_weight budget w ≡ none))
      ⊎ ((w ≡ pos 0) × (byte_weight budget w ≡ some (pos 1)))
      ⊎ ((pos 1 ≤ℤ w) × (w ≤ℤ budget) × (byte_weight budget w ≡ some w))
      ⊎ ((budget <ℤ w) × (byte_weight budget w ≡ some budget))
unfolding byte_weight
byte_weight_cases budget w h = ground arith

-- What an observer may see of a limiter at any moment.
pub record Bounded (g : Gate) (limit : ℤ) (s : System g) : Type 0 where
  pub counted : pos 0 ≤ℤ s.counter.in_flight
  pub covered : s.counter.in_flight ≤ℤ g.held s.counter.gate
  pub bounded : g.held s.counter.gate ≤ℤ limit

Inv-Bounded :
    (g : Gate) (cap : ℤ) (b : pos_part cap < 2 ^ 63) (s : System g)
    → Inv g cap b s
    → Bounded g cap s
Inv-Bounded g cap b s v =
    let (l, h) = totals g s.calls v.sound in
    record { counted = rw v.count l; covered = rw (v.count, v.gate) h; bounded = v.fits }

-- A byte limiter whose semaphore is fresh.
record IsFresh (sem : Semaphore) (l : ByteLimiter sem) : Type 0 where
  unused : l.bytes ≡ sem.new_weighted l.budget
  idle : l.in_flight ≡ pos 0
  positive : pos 1 ≤ℤ l.budget
  int64 : pos_part l.budget < 2 ^ 63

new_byte_limiter-IsFresh :
    (sem : Semaphore) (name : String) (budget : ℤ)
    → pos_part budget < 2 ^ 63
    → IsFresh sem (new_byte_limiter sem name budget)
unfolding new_byte_limiter
new_byte_limiter-IsFresh sem name budget h = record {
  unused = refl;
  idle = refl;
  positive = ground arith;
  int64 = ground arith;
}

byte_run-Inv :
    (sem : Semaphore) (l : ByteLimiter sem) (f : IsFresh sem l) (actions : List Action)
    → Inv
        (semaphore_gate sem)
        l.budget
        f.int64
        (run (semaphore_gate sem) (byte_weight l.budget) (byte_system sem l) actions)
byte_run-Inv sem l f actions =
    run-Inv (semaphore_gate sem) l.budget f.int64 (byte_weight l.budget)
      (λ w n. byte_weight-allowed l.budget w n f.positive) actions (byte_system sem l)
      (record {
        sound = tt;
        gate = none_held;
        count = f.idle;
        fits = rw none_held (omega (arith, f.positive));
        same = ap sem.size f.unused ∙ sem.new-size l.budget;
      })
  where
    none_held : sem.held l.bytes ≡ pos 0
    none_held = ap sem.held f.unused ∙ sem.new-held l.budget

-- A new limiter after a schedule of atomic actions.
abbrev pub byte_run : (sem : Semaphore) → String → ℤ → List Action → System (semaphore_gate sem)
byte_run sem name budget actions =
    let l = new_byte_limiter sem name budget in
    run (semaphore_gate sem) (byte_weight l.budget) (byte_system sem l) actions

abbrev fixed_run : String → ℤ → List Action → System chan_gate
fixed_run name n actions =
    run chan_gate fixed_weight (fixed_system (new_fixed_limiter name n)) actions

-- Whatever the interleaving of calls of Acquire with any weights, of their contexts ending and of
-- their releases, called again or not, the bytes in flight lie between 0 and the bytes that the
-- semaphore holds, and those never exceed the limiter's budget; the budget is below 2^63.
pub byte_in_flight-Bounded :
    (sem : Semaphore) (name : String) (budget : ℤ) (actions : List Action)
    → pos_part budget < 2 ^ 63
    → Bounded
        (semaphore_gate sem)
        (new_byte_limiter sem name budget).budget
        (byte_run sem name budget actions)
byte_in_flight-Bounded sem name budget actions h =
    let f = new_byte_limiter-IsFresh sem name budget h in
    Inv-Bounded _ _ f.int64 _ (byte_run-Inv sem (new_byte_limiter sem name budget) f actions)

-- Once every call is refused, blocked, or released to the end, the semaphore holds nothing and the
-- count of bytes in flight is 0: the whole budget is free again.
byte_budget_returned :
    (sem : Semaphore) (name : String) (budget : ℤ) (actions : List Action)
    → pos_part budget < 2 ^ 63
    → All (IsIdle (semaphore_gate sem)) (byte_run sem name budget actions).calls
    → let s = byte_run sem name budget actions in
      (sem.held s.counter.gate ≡ pos 0) × (s.counter.in_flight ≡ pos 0)
byte_budget_returned sem name budget actions h idle =
    let f = new_byte_limiter-IsFresh sem name budget h in
    let v = byte_run-Inv sem (new_byte_limiter sem name budget) f actions in
    let (none_held, none_counted) = idle_totals (semaphore_gate sem) _ idle in
    (v.gate ∙ none_held, v.count ∙ none_counted)

fixed_unit : (w n : ℤ) → fixed_weight w ≡ some n → n ≡ pos 1
unfolding fixed_weight
fixed_unit w n e = ground arith

-- At no moment of any interleaving are more calls admitted by a FixedLimiter than its limit,
-- whatever the weights that they pass; the limit is below 2^63.
fixed_in_flight-Bounded :
    (name : String) (n : ℤ) (actions : List Action)
    → pos_part n < 2 ^ 63
    → Bounded chan_gate (new_fixed_limiter name n).limit (fixed_run name n actions)
unfolding new_fixed_limiter
fixed_in_flight-Bounded name n actions h = Inv-Bounded chan_gate _ int64 _ (
    run-Inv chan_gate _ int64 fixed_weight fixed_unit actions _
      (record { sound = tt; gate = refl; count = refl; fits = ground arith; same = refl }))
  where
    int64 : pos_part (new_fixed_limiter name n).limit < 2 ^ 63
    int64 = ground arith
