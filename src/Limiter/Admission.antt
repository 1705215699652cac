-- ===== src/Limiter/Admission.antt =====
-- The actions of Acquire and of the release function, one atomic step at a time
-- (internal/pipeline/limiter.go: FixedLimiter.Acquire and ByteLimiter.Acquire).
use s3nitor.Prelude.{ℕ, zero, suc, Option, none, some, List, [], ◌∷◌}
use s3nitor.Prelude.Int.{ℤ, ◌+ℤ◌, ◌-ℤ◌, wrap64}
use s3nitor.Limiter.Gate.{Gate}

-- How far a call has come. `entered`: the gate is passed and nothing counted yet; `admitted`: the
-- caller has the release function; `leaving`: its CompareAndSwap succeeded; `left`: the count is
-- down and the gate not yet given back; `gone`: released, when further calls of release do nothing;
-- `refused`: the context ended first, or the weight was refused.
pub data Phase : Type 0 where
  waiting entered admitted leaving left : ℤ → Phase
  gone refused : Phase

pub data Action : Type 0 where
  -- a new call of Acquire, with its weight
  arrive : ℤ → Action
  -- the call at this position makes its next atomic action
  move : ℕ → Action
  -- the context of the call at this position is done
  cancel : ℕ → Action

module _ (g : Gate) where
  pub record Counter : Type 0 where
    pub gate : g.State
    pub in_flight : ℤ

  pub record System : Type 0 where
    pub counter : Counter
    pub calls : List Phase

  entering : Counter → ℤ → Option g.State → Counter × Phase
  entering c w none = (c, waiting w)
  entering c w (some s) = (record c { gate = s }, entered w)

  giving_back : Counter → ℤ → Option g.State → Counter × Phase
  giving_back c w none = (c, left w)
  giving_back c w (some s) = (record c { gate = s }, gone)

  unfoldable pub advance : Counter → Phase → Counter × Phase
  unfolding entering giving_back
  advance c (waiting w) = entering c w (g.enter w c.gate)
  advance c (entered w) = (record c { in_flight = wrap64 (c.in_flight +ℤ w) }, admitted w)
  advance c (admitted w) = (c, leaving w)
  advance c (leaving w) = (record c { in_flight = wrap64 (c.in_flight -ℤ w) }, left w)
  advance c (left w) = giving_back c w (g.leave w c.gate)
  advance c gone = (c, gone)
  advance c refused = (c, refused)

  unfoldable give_up : Phase → Phase
  give_up (waiting w) = refused
  give_up p = p

  unfoldable pub advance_at : ℕ → Counter → List Phase → Counter × List Phase
  unfolding advance
  advance_at i c [] = (c, [])
  advance_at zero c (p ∷ ps) = let (c', p') = advance c p in (c', p' ∷ ps)
  advance_at (suc i) c (p ∷ ps) = let (c', ps') = advance_at i c ps in (c', p ∷ ps')

  unfoldable pub give_up_at : ℕ → List Phase → List Phase
  unfolding give_up
  give_up_at i [] = []
  give_up_at zero (p ∷ ps) = give_up p ∷ ps
  give_up_at (suc i) (p ∷ ps) = p ∷ give_up_at i ps

  -- The weight of a call, or `none` where the limiter refuses it at once.
  unfoldable pub first_phase : Option ℤ → Phase
  first_phase none = refused
  first_phase (some w) = waiting w

  module _ (weigh : ℤ → Option ℤ) where
    unfoldable pub act : System → Action → System
    unfolding advance_at give_up_at first_phase
    act s (arrive w) = record s { calls = first_phase (weigh w) ∷ s.calls }
    act s (move i) =
        let (c, ps) = advance_at i s.counter s.calls in record s { counter = c; calls = ps }
    act s (cancel i) = record s { calls = give_up_at i s.calls }

    unfoldable pub run : System → List Action → System
    unfolding act
    run s [] = s
    run s (a ∷ as') = run (act s a) as'
