-- ===== src/Limiter/Gate.antt =====
-- What holds the weights of admitted work: the buffered channel of FixedLimiter, which is part of
-- the language, and the weighted semaphore of golang.org/x/sync, which is a parameter.
use s3nitor.Prelude.{◌≡◌, Option, none, some, if◌then◌else◌, arith}
use s3nitor.Prelude.Int.{ℤ, pos, ◌+ℤ◌, ◌-ℤ◌, ◌≤ℤ◌, ltb_ℤ}

-- `semaphore.Weighted`. `acquire` is the moment at which a blocked Acquire gets through (`none`:
-- it goes on waiting); `release` gives `none` where Release panics. The laws are its documentation:
-- the weights held never exceed the size, Acquire adds n, and Release gives back what is held.
pub record Semaphore : Type 1 where
  pub State : Type 0
  pub new_weighted : ℤ → State
  pub acquire : ℤ → State → Option State
  pub release : ℤ → State → Option State
  pub size : State → ℤ
  pub held : State → ℤ
  pub new-held : (n : ℤ) → held (new_weighted n) ≡ pos 0
  pub new-size : (n : ℤ) → size (new_weighted n) ≡ n
  pub acquire-held : (n : ℤ) (s t : State) → acquire n s ≡ some t → held t ≡ held s +ℤ n
  pub acquire-size : (n : ℤ) (s t : State) → acquire n s ≡ some t → size t ≡ size s
  pub acquire_fits : (n : ℤ) (s t : State) → acquire n s ≡ some t → held t ≤ℤ size t
  pub release_held :
      (n : ℤ) (s : State)
      → n ≤ℤ held s
      → (t : State) × (release n s ≡ some t) × (held t ≡ held s -ℤ n) × (size t ≡ size s)

-- A buffered channel of empty structs: how many it holds, and its capacity.
pub record Chan : Type 0 where
  pub len : ℤ
  pub cap : ℤ

-- A send blocks while the buffer is full, and a receive while it is empty.
unfoldable pub send : Chan → Option Chan
send c = if ltb_ℤ c.len c.cap then some (record c { len = c.len +ℤ pos 1 }) else none

unfoldable pub receive : Chan → Option Chan
receive c = if ltb_ℤ (pos 0) c.len then some (record c { len = c.len -ℤ pos 1 }) else none

-- What the admission of work needs of either.
pub record Gate : Type 1 where
  pub State : Type 0
  pub Allowed : ℤ → Type 0
  pub enter : ℤ → State → Option State
  pub leave : ℤ → State → Option State
  pub held : State → ℤ
  pub capacity : State → ℤ
  pub allowed_pos : (n : ℤ) → Allowed n → pos 1 ≤ℤ n
  pub enter-held : (n : ℤ) (s t : State) → Allowed n → enter n s ≡ some t → held t ≡ held s +ℤ n
  pub enter-capacity :
      (n : ℤ) (s t : State) → Allowed n → enter n s ≡ some t → capacity t ≡ capacity s
  pub enter_fits : (n : ℤ) (s t : State) → Allowed n → enter n s ≡ some t → held t ≤ℤ capacity t
  pub leave_held :
      (n : ℤ) (s : State)
      → Allowed n
      → n ≤ℤ held s
      → (t : State) × (leave n s ≡ some t) × (held t ≡ held s -ℤ n) × (capacity t ≡ capacity s)

pub chan-held : (n : ℤ) (s t : Chan) → n ≡ pos 1 → send s ≡ some t → t.len ≡ s.len +ℤ n
unfolding send
chan-held n s t a e = rw a (ground arith)

pub chan-capacity : (n : ℤ) (s t : Chan) → n ≡ pos 1 → send s ≡ some t → t.cap ≡ s.cap
unfolding send
chan-capacity n s t a e = ground arith

pub chan_fits : (n : ℤ) (s t : Chan) → n ≡ pos 1 → send s ≡ some t → t.len ≤ℤ t.cap
unfolding send ◌+ℤ◌
chan_fits n s t a e = ground arith

pub chan_leave :
    (n : ℤ) (s : Chan)
    → n ≡ pos 1
    → n ≤ℤ s.len
    → (t : Chan) × (receive s ≡ some t) × (t.len ≡ s.len -ℤ n) × (t.cap ≡ s.cap)
unfolding receive
chan_leave n s a h =
    (record s { len = s.len -ℤ pos 1 }, ground arith, rw a (ground arith), ground arith)

pub chan_allowed : (n : ℤ) → n ≡ pos 1 → pos 1 ≤ℤ n
chan_allowed n a = rw a (omega arith)

-- The channel admits units.
abbrev pub chan_gate : Gate
chan_gate = record {
  State = Chan;
  Allowed = λ n. n ≡ pos 1;
  enter = λ n. send;
  leave = λ n. receive;
  held = λ c. c.len;
  capacity = λ c. c.cap;
  allowed_pos = chan_allowed;
  enter-held = chan-held;
  enter-capacity = chan-capacity;
  enter_fits = chan_fits;
  leave_held = chan_leave;
}

-- The semaphore admits weights of one or more.
abbrev pub semaphore_gate : Semaphore → Gate
semaphore_gate sem = record {
  State = sem.State;
  Allowed = λ n. pos 1 ≤ℤ n;
  enter = sem.acquire;
  leave = sem.release;
  held = sem.held;
  capacity = sem.size;
  allowed_pos = λ n a. a;
  enter-held = λ n s t a. sem.acquire-held n s t;
  enter-capacity = λ n s t a. sem.acquire-size n s t;
  enter_fits = λ n s t a. sem.acquire_fits n s t;
  leave_held = λ n s a. sem.release_held n s;
}
