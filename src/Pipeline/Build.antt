-- ===== src/Pipeline/Build.antt =====
-- internal/pipeline/pipeline.go: New, which makes the limiters and the lanes. The number of cores is
-- an argument, and so are the limiters' semaphore and the operations on floats.
use s3nitor.Prelude.{List, if◌then◌else◌}
use s3nitor.Prelude.Int.{ℤ, pos, leb_ℤ}
use s3nitor.Scanner.{Engine}
use s3nitor.Config.{Config}
use s3nitor.Limiter.{FixedLimiter, ByteLimiter, FloatOps, new_fixed_limiter, new_byte_limiter}
use s3nitor.Limiter.Gate.{Semaphore}
use s3nitor.Pipeline.Lane.{Lane, build_lanes}

pub record Pipeline (sem : Semaphore) : Type 0 where
  pub byte_limiter : ByteLimiter sem
  pub conn_limiter : FixedLimiter
  pub cpu_limiter : FixedLimiter
  pub lanes : List Lane

unfoldable cpu_count : ℤ → ℤ → ℤ
cpu_count limit cores = if leb_ℤ limit (pos 0) then cores else limit

unfoldable new_pipeline : (sem : Semaphore) → FloatOps → ℤ → Config → Engine → Pipeline sem
unfolding cpu_count build_lanes
new_pipeline sem fl cores cfg engine =
    let cpu = new_fixed_limiter "cpu" (cpu_count cfg.analyze_cpu_limit cores) in
    record {
      byte_limiter = new_byte_limiter sem "bytes" cfg.fetch_byte_budget;
      conn_limiter = new_fixed_limiter "conns" cfg.fetch_max_conns;
      cpu_limiter = cpu;
      lanes = build_lanes fl cfg cpu.limit engine.scanners;
    }
