-- ===== src/Ledger/Claims.antt =====
-- internal/db/scan_task.go: the tasks that ClaimPending takes, and two workers that want one task.
use s3nitor.Prelude.{
  ℕ, suc, ◌+◌, ◌≤◌, ◌≡◌, refl, ◌∙◌, String, eq_refl, true, false, Bool-cases, some, Option-cases,
  List, [], ◌∷◌, ◌++◌, All, All-append, length, length-append, inl, inr, arith, if◌then◌else◌, ◌==◌,
}
use s3nitor.Prelude.Int.{◌+ℤ◌, eqb_ℤ}
use s3nitor.Scanner.{Time, Duration}
use s3nitor.Table.{done, count_row, Write-cases, Answer-cases}
use s3nitor.Ledger.{
  ScanTask, TaskTable, TaskKey, task_key, same_task, status_running, is_due, is_unchanged,
  under_lease, Claim, claimed, claim_failed, claim_update, handed_out, claim_loop, claim_pending,
}

pub same_task_refl : (k : TaskKey) → same_task k k ≡ true
same_task_refl k = rw (eq_refl k.0, eq_refl k.1)

module _ (db : TaskTable) (worker : String) (lease_for : Duration) (now : Time) where
  -- The row of a task is running, leased to the worker for the lease's length from now.
  abbrev LeasedAt : db.State → ScanTask → Type 0
  LeasedAt s t =
      (r : ScanTask) × (db.row_at s (task_key t) ≡ some r)
      × (r.status ≡ status_running)
      × (r.leased_by ≡ worker)
      × (r.lease_expires_at ≡ now +ℤ lease_for)
      × (r.updated_at ≡ now)

  -- A task as it is handed out: its row was due, and one more attempt is counted.
  abbrev TakenFrom : db.State → ScanTask → Type 0
  TakenFrom s t =
      (r : ScanTask) × (db.row_at s (task_key t) ≡ some r)
      × (is_due now r ≡ true)
      × (t ≡ record r { attempts = r.attempts + 1 })

  -- An update that counts one row had found the row as it was read, and has put it under lease.
  pub update_row :
      (t : ScanTask) (s s' : db.State) (n : ℕ)
      → claim_update db worker lease_for now t s ≡ done s' n
      → (n == 1) ≡ true
      → (r : ScanTask) × (db.row_at s (task_key t) ≡ some r)
        × (is_unchanged t r ≡ true)
        × (db.row_at s' (task_key t) ≡ some (under_lease worker lease_for now t r))
  unfolding claim_update
  update_row t s s' n e one = elim (Option-cases (db.row_at s k)) [
    | inl missing ↦ absurd (ground (arith, rw missing at counted))
    | inr (r, at) ↦ elim (Bool-cases (is_unchanged t r)) [
      | inl same ↦
          (r, at, same, db.update-row_at k _ _ s s' n k e ∙ rw (same_task_refl k, at, same))
      | inr other ↦ absurd (ground (arith, rw (at, other) at counted))
    ]
  ]
    where
      k : TaskKey
      k = task_key t

      counted : n ≡ count_row (is_unchanged t) (db.row_at s k)
      counted = db.update_count k _ _ s s' n e

  update_takes :
      (t : ScanTask) (s s' : db.State) (n : ℕ)
      → claim_update db worker lease_for now t s ≡ done s' n
      → (n == 1) ≡ true
      → LeasedAt s' t
  unfolding under_lease
  update_takes t s s' n e one =
      let (r, at, same, after) = update_row t s s' n e one in
      (under_lease worker lease_for now t r, after, refl, refl, refl, refl)

  update_keeps :
      (t u : ScanTask) (s s' : db.State) (n : ℕ)
      → claim_update db worker lease_for now t s ≡ done s' n
      → LeasedAt s u
      → LeasedAt s' u
  unfolding claim_update under_lease
  update_keeps t u s s' n e (r, at, running, leased, expires, updated) =
      let after = db.update-row_at (task_key t) _ _ s s' n (task_key u) e in
      elim (Bool-cases (same_task (task_key t) (task_key u))) [
        | inr apart ↦ (r, after ∙ rw (apart, at), running, leased, expires, updated)
        | inl same ↦ elim (Bool-cases (is_unchanged t r)) [
          | inl old ↦ (
            under_lease worker lease_for now t r,
            after ∙ rw (same, at, old),
            refl,
            refl,
            refl,
            refl,
          )
          | inr new ↦ (r, after ∙ rw (same, at, new), running, leased, expires, updated)
        ]
      ]

  All-keep :
      (t : ScanTask) (us : List ScanTask) (s s' : db.State) (n : ℕ)
      → claim_update db worker lease_for now t s ≡ done s' n
      → All (LeasedAt s) us
      → All (LeasedAt s') us
  All-keep t [] s s' n e a = tt
  All-keep t (u ∷ us) s s' n e (a, as') = (update_keeps t u s s' n e a, All-keep t us s s' n e as')

  -- The candidates are rows of the state `s₀` in which they were read.
  abbrev Candidate : db.State → ScanTask → Type 0
  Candidate s₀ t = (db.row_at s₀ (task_key t) ≡ some t) × (is_due now t ≡ true)

  pub record Taken (s₀ s : db.State) (bound : ℕ) (out : List ScanTask) : Type 0 where
    pub due : All (TakenFrom s₀) out
    pub leased : All (LeasedAt s) out
    pub few : length out ≤ bound

  -- What a claim that does not fail ends with.
  abbrev pub Ends : db.State → ℕ → Claim db.State → Type 0
  Ends s₀ bound (claimed out s) = Taken s₀ s bound out
  Ends s₀ bound (claim_failed e) = Unit

  take_one :
      (s₀ s s' : db.State) (t : ScanTask) (taken : List ScanTask) (n bound : ℕ)
      → Candidate s₀ t
      → claim_update db worker lease_for now t s ≡ done s' n
      → Taken s₀ s bound taken
      → Taken s₀ s'
          (suc bound)
          (if n == 1 then taken ++ handed_out db worker lease_for now t ∷ [] else taken)
  unfolding handed_out
  take_one s₀ s s' t taken n bound (at, due) e v = elim (Bool-cases (n == 1)) [
    | inl one ↦ rw one (record {
      due = All-append _ taken _ v.due ((t, at, due, refl), tt);
      leased =
          All-append _ taken _ (All-keep t taken s s' n e v.leased)
            (update_takes t s s' n e one, tt);
      few = omega (arith, v.few, length-append taken (record t { attempts = t.attempts + 1 } ∷ []));
    })
    | inr other ↦ rw other (record {
      due = v.due;
      leased = All-keep t taken s s' n e v.leased;
      few = omega (arith, v.few);
    })
  ]

  claim_loop-Ends :
      (s₀ : db.State) (ts taken : List ScanTask) (s : db.State) (bound b : ℕ)
      → bound + length ts ≤ b
      → All (Candidate s₀) ts
      → Taken s₀ s bound taken
      → Ends s₀ b (claim_loop db worker lease_for now taken ts s)
  unfolding claim_loop
  claim_loop-Ends s₀ [] taken s bound b eq c v = record {
    due = v.due;
    leased = v.leased;
    few = omega (arith, v.few);
  }
  claim_loop-Ends s₀ (t ∷ ts) taken s bound b eq (c, cs) v =
      elim (Write-cases (claim_update db worker lease_for now t s)) [
        | inl (x, e) ↦ rw (e, claim_loop) tt
        | inr (s', n, e) ↦
            rw (e, claim_loop)
              (claim_loop-Ends s₀ ts _ s' (suc bound) b (omega arith) cs
                (take_one s₀ s s' t taken n bound c e v))
      ]

  -- Unless the database fails, ClaimPending hands out at most `limit` tasks, each of them due in the
  -- state that it read and with one more attempt counted, and leaves the row of every one of them
  -- running under this worker's lease until `lease_for` from now.
  pub claim_pending-Ends :
      (limit : ℕ) (s : db.State) → Ends s limit (claim_pending db worker lease_for now limit s)
  unfolding claim_pending
  claim_pending-Ends limit s = elim (Answer-cases (db.select (is_due now) limit s)) [
    | inl (x, e) ↦ rw (e, claim_pending) tt
    | inr (ts, e) ↦
        rw (e, claim_pending)
          (claim_loop-Ends s ts [] s 0 limit (omega (arith, db.select_limit _ limit s ts e))
            (db.select_sound _ limit s ts e) (record { due = tt; leased = tt; few = omega arith }))
  ]

-- Once a claim has gone through, a second one that read the same row takes nothing and leaves the
-- row as it is, whoever makes it and with whatever lease, unless the first claim was made at the
-- very time that the row was last updated.
pub claim_update_once :
    (db : TaskTable) (t : ScanTask) (worker other : String) (lease lease' : Duration)
    (now later : Time) (s s₁ s₂ : db.State) (n : ℕ)
    → eqb_ℤ now t.updated_at ≡ false
    → claim_update db worker lease now t s ≡ done s₁ 1
    → claim_update db other lease' later t s₁ ≡ done s₂ n
    → (n ≡ 0) × (db.row_at s₂ (task_key t) ≡ db.row_at s₁ (task_key t))
unfolding claim_update
claim_update_once db t worker other lease lease' now later s s₁ s₂ n tick first second =
    let (r, at, running, leased, expires, updated) =
      update_takes db worker lease now t s s₁ 1 first refl in
    let stale : is_unchanged t r ≡ false = rw updated tick in
    let counted = db.update_count (task_key t) _ _ s₁ s₂ n second in
    let after = db.update-row_at (task_key t) _ _ s₁ s₂ n (task_key t) second in
    (counted ∙ rw (at, stale), after ∙ rw (same_task_refl (task_key t), at, stale))
