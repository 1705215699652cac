-- ===== src/Limiter.antt =====
-- internal/pipeline/limiter.go: admission of work up to a bound.
-- An Acquire and the release that it returns are several atomic actions, between which other
-- goroutines run. `Phase` is how far one call has come, and a schedule is a list of such actions.
pub mod Pace
pub mod Gate
pub mod Admission
pub mod Shares
mod Moves
pub mod Bounds
pub mod Limits
use s3nitor.Prelude.{ℕ, String, Bool, Option, none, some, if◌then◌else◌}
use s3nitor.Prelude.Int.{ℤ, pos, ltb_ℤ}
use s3nitor.Scanner.{Duration, Float64, GoError}
use Gate.{Chan, Semaphore}

pub record Outcome : Type 0 where
  pub err : Option GoError
  pub latency : Duration

pub record FixedLimiter : Type 0 where
  pub name : String
  pub slots : Chan
  pub limit : ℤ
  pub in_flight : ℤ

unfoldable pub new_fixed_limiter : String → ℤ → FixedLimiter
new_fixed_limiter name n =
    let m = if ltb_ℤ n (pos 1) then pos 1 else n in
    record { name = name; slots = record { len = pos 0; cap = m }; limit = m; in_flight = pos 0 }

-- FixedLimiter.Acquire ignores the weight that it is given.
unfoldable pub fixed_weight : ℤ → Option ℤ
fixed_weight weight = some (pos 1)

pub record ByteLimiter (sem : Semaphore) : Type 0 where
  pub name : String
  pub bytes : sem.State
  pub budget : ℤ
  pub in_flight : ℤ

unfoldable pub new_byte_limiter : (sem : Semaphore) → String → ℤ → ByteLimiter sem
new_byte_limiter sem name budget =
    let b = if ltb_ℤ budget (pos 1) then pos 1 else budget in
    record { name = name; bytes = sem.new_weighted b; budget = b; in_flight = pos 0 }

-- The checks at the head of ByteLimiter.Acquire: `none` is the error of a negative weight, and
-- otherwise the weight is clamped to 1 .. budget.
unfoldable pub byte_weight : ℤ → ℤ → Option ℤ
byte_weight budget weight =
    if ltb_ℤ weight (pos 0)
    then none
    else (let w = if ltb_ℤ weight (pos 1) then pos 1 else weight in
        some (if ltb_ℤ budget w then budget else w))

-- Go's operations on float64.
pub record FloatOps : Type 0 where
  pub of_nat : ℕ → Float64
  pub le : Float64 → Float64 → Bool
  pub div : Float64 → Float64 → Float64

-- golang.org/x/time/rate admits `per_sec` a second, with a burst of `burst`.
pub record RateLimiter : Type 0 where
  pub name : String
  pub rate : Float64
  pub burst : ℕ
  pub in_flight : ℤ
  pub per_sec : Float64

unfoldable pub new_rate_limiter : FloatOps → String → Float64 → RateLimiter
new_rate_limiter fl name per_sec =
    let r = if fl.le per_sec (fl.of_nat 0) then fl.of_nat 1 else per_sec in
    record { name = name; rate = r; burst = 1; in_flight = pos 0; per_sec = r }
