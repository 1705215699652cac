-- ===== src/Limiter/Pace.antt =====
-- internal/pipeline/limiter.go: RateLimiter.Acquire and its release, over the limiter of
-- golang.org/x/time/rate, which is the parameter `Pacer`.
use s3nitor.Prelude.{ℕ, Bool, true, Option, none, some, if◌then◌else◌}
use s3nitor.Prelude.Int.{pos, wrap64, ◌+ℤ◌, ◌-ℤ◌}
use s3nitor.Limiter.{RateLimiter}

-- `wait` is called at a time, and returns at another, or with an error because the context ended.
pub record Pacer : Type 1 where
  pub State : Type 0
  pub wait : ℕ → Bool → State → Option ℕ × State

-- The release counts once, however often it is called; `once` tells whether it was.
unfoldable release_rate : Bool → RateLimiter → Bool × RateLimiter
unfolding wrap64 ◌-ℤ◌
release_rate once l =
    if once then (true, l) else (true, record l { in_flight = wrap64 (l.in_flight -ℤ pos 1) })

module _ (p : Pacer) where
  unfoldable pub acquire_rate :
      ℕ → Bool → RateLimiter → p.State → Option ℕ × (RateLimiter × p.State)
  unfolding wrap64 ◌+ℤ◌
  acquire_rate now ended l s =
      let (t, s') = p.wait now ended s in
      elim t [
        | none ↦ (none, (l, s'))
        | some t ↦ (some t, (record l { in_flight = wrap64 (l.in_flight +ℤ pos 1) }, s'))
      ]
