-- ===== src/Intel/Cache.antt =====
-- internal/intel/intel.go: the cache, the quota and the requests of one scan.
use s3nitor.Prelude.{
  ℕ, ◌≡◌, refl, sym, ap, subst, ◌+◌, ◌-◌, ◌⊎◌, inl, inr, String, str_eq, Bool, true, false, not,
  ◌&&◌, ◌∙◌, Bool-cases, Option, none, some, take, List, [], ◌∷◌, arith, ◌==◌,
}
use s3nitor.Prelude.Int.{
  ℤ, ltb_ℤ, pos, pos_part, neg_part, ◌+ℤ◌, ◌≤ℤ◌, ◌<ℤ◌, FitsInt64, wrap64, wrap64_of_fits, int_laws,
}
use s3nitor.Scanner.{Time, Result, GoError, ScanInput, hash_of}
use s3nitor.Table.{Look, found, missing, look_failed}
use s3nitor.Intel.{
  IntelCache, IntelTable, Json, Lookup, Reply, no_request, no_response, response, Body, body,
  unreadable, Parsed, parsed, unparsable, State, store, is_exhausted, concluded, read_body,
  answered, get_intel, asked, uncached, looked_up, intel_scan, max_body, unknown,
}

pub Look-cases :
    {R : Type 0} (a : Look R)
    → ((r : R) × (a ≡ found r)) ⊎ (a ≡ missing) ⊎ ((e : GoError) × (a ≡ look_failed e))
Look-cases (found r) = inl (r, refl)
Look-cases missing = inr (inl refl)
Look-cases (look_failed e) = inr (inr (e, refl))

module _ (db : IntelTable) (json : Json) (l : Lookup) where
  -- Whether a look into the cache found nothing that is still valid, the count is below the quota, and
  -- a request was answered.
  abbrev pub is_miss : Option IntelCache → Bool
  is_miss none = true
  is_miss (some row) = false

  abbrev pub has_answer : Reply → Bool
  has_answer (response status b) = true
  has_answer (no_request e) = false
  has_answer (no_response e) = false

  abbrev pub is_below : State db json l → Bool
  is_below s = ltb_ℤ s.spent l.daily_quota

  -- Whether a scan makes the provider answer a request.
  abbrev pub is_answered : ScanInput → Time → State db json l → Bool
  is_answered i now s =
      let sha = hash_of "sha256" i.hashes in
      not (str_eq sha "")
      && (is_miss (get_intel db json l l.provider.name sha now s.cache)
          && (is_below s && has_answer (l.provider.ask sha)))

  -- What a scan that does or does not makes of the count.
  abbrev Spends : Bool → State db json l → State db json l → Type 0
  Spends b s s' =
      ((b ≡ false) × (s'.spent ≡ s.spent))
      ⊎ ((b ≡ true) × (is_exhausted db json l s ≡ false) × (s'.spent ≡ wrap64 (s.spent +ℤ pos 1)))

  store-spent :
      (sha : String) (res : Result) (known : Bool) (now : Time) (s : State db json l)
      → (store db json l sha res known now s).spent ≡ s.spent
  unfolding store
  store-spent sha res known now s = refl

  concluded-spent :
      (sha : String) (now : Time) (p : Parsed) (s : State db json l)
      → (concluded db json l sha now p s).1.spent ≡ s.spent
  unfolding concluded
  concluded-spent sha now (unparsable e) s = refl
  concluded-spent sha now (parsed res) s = store-spent sha res true now s

  read_body-spent :
      (sha : String) (now : Time) (b : Body) (s : State db json l)
      → (read_body db json l sha now b s).1.spent ≡ s.spent
  unfolding read_body
  read_body-spent sha now (unreadable e) s = refl
  read_body-spent sha now (body w) s =
      concluded-spent sha now (l.provider.parse (take max_body w)) s

  answered-spent :
      (sha : String) (now : Time) (status : ℕ) (b : Body) (s : State db json l)
      → (answered db json l sha now status b s).1.spent ≡ s.spent
  unfolding answered
  answered-spent sha now status b s = elim (Bool-cases (status == 404)) [
    | inl gone ↦ rw gone (store-spent sha unknown false now s)
    | inr there ↦ rw there (elim (Bool-cases (status == 429)) [
      | inl limited ↦ rw limited refl
      | inr free ↦ rw free (elim (Bool-cases (status == 200)) [
        | inl ok ↦ rw ok (read_body-spent sha now b s)
        | inr other ↦ rw other refl
      ])
    ])
  ]

  asked-Spends :
      (sha : String) (now : Time) (r : Reply) (s : State db json l)
      → is_exhausted db json l s ≡ false
      → Spends (has_answer r) s (asked db json l sha now r s).1
  unfolding asked
  asked-Spends sha now (no_request e) s h = inl (refl, refl)
  asked-Spends sha now (no_response e) s h = inl (refl, refl)
  asked-Spends sha now (response status b) s h = inr (refl, h, answered-spent sha now status b _)

  exhausted-above :
      (s : State db json l) → pos 0 <ℤ l.daily_quota → is_below s ≡ not (is_exhausted db json l s)
  unfolding is_exhausted
  exhausted-above s q = ground arith

  within_quota :
      (sha : String) (now : Time) (s : State db json l)
      → is_exhausted db json l s ≡ false
      → uncached db json l sha now s ≡ asked db json l sha now (l.provider.ask sha) s
  unfolding uncached
  within_quota sha now s h = rw h refl

  looked_up-Spends :
      (sha : String) (now : Time) (o : Option IntelCache) (s : State db json l)
      → pos 0 <ℤ l.daily_quota
      → Spends
          (is_miss o && (is_below s && has_answer (l.provider.ask sha)))
          s
          (looked_up db json l sha now o s).1
  unfolding looked_up uncached
  looked_up-Spends sha now (some row) s q = inl (refl, refl)
  looked_up-Spends sha now none s q = elim (Bool-cases (is_exhausted db json l s)) [
    | inl out ↦ rw (exhausted-above s q, out, uncached) (inl (refl, refl))
    | inr within ↦ rw (exhausted-above s q ∙ ap not within) (
        subst (λ x. Spends (has_answer (l.provider.ask sha)) s x.1)
          (sym (within_quota sha now s within))
          (asked-Spends sha now (l.provider.ask sha) s within))
  ]

  intel_scan-Spends :
      (i : ScanInput) (now later : Time) (s : State db json l)
      → pos 0 <ℤ l.daily_quota
      → Spends (is_answered i now s) s (intel_scan db json l i now later s).1
  unfolding intel_scan
  intel_scan-Spends i now later s q = elim (Bool-cases (str_eq (hash_of "sha256" i.hashes) "")) [
    | inl blank ↦ rw blank (inl (refl, refl))
    | inr named ↦ rw named (looked_up-Spends _ later _ s q)
  ]

  abbrev pub count : Bool → ℕ
  count true = 1
  count false = 0

  -- The count of one scan stays within the quota.
  one_keeps_quota :
      (i : ScanInput) (now later : Time) (s : State db json l)
      → pos 0 <ℤ l.daily_quota
      → FitsInt64 l.daily_quota
      → pos 0 ≤ℤ s.spent
      → s.spent ≤ℤ l.daily_quota
      → let s' = (intel_scan db json l i now later s).1 in
        (s'.spent ≡ s.spent +ℤ pos (count (is_answered i now s)))
        × (pos 0 ≤ℤ s'.spent)
        × (s'.spent ≤ℤ l.daily_quota)
  unfolding is_exhausted
  one_keeps_quota i now later s q f z h = elim (intel_scan-Spends i now later s q) [
    | inl (unasked, same) ↦ rw (unasked, same) (omega int_laws, z, h)
    | inr (asked', room, more) ↦
        let below : s.spent <ℤ l.daily_quota = ground arith in
        let next : s.spent +ℤ pos 1 ≡ pos (pos_part s.spent + 1 - neg_part s.spent) =
          omega int_laws in
        let fits =
          wrap64_of_fits (pos (pos_part s.spent + 1 - neg_part s.spent))
            (record { above = omega (int_laws, f.above); below = omega int_laws }) in
        rw (asked', more, next, fits) (refl, omega int_laws, omega int_laws)
  ]

  -- Scans that follow one another, each with its input and the clock's readings, and how often the
  -- provider answers them.
  abbrev pub scan_each : List (ScanInput × Time × Time) → State db json l → State db json l
  scan_each [] s = s
  scan_each ((i, now, later) ∷ rest) s = scan_each rest (intel_scan db json l i now later s).1

  abbrev pub answers : List (ScanInput × Time × Time) → State db json l → ℕ
  answers [] s = 0
  answers ((i, now, later) ∷ rest) s =
      count (is_answered i now s) + answers rest (intel_scan db json l i now later s).1

  -- Where the scans of a scanner with a daily quota follow one another, as in a lane with one worker:
  -- after any number of them, it has counted exactly the requests that the provider answered, which are
  -- made for an object with a SHA-256 of which the cache has no valid verdict, and these are never more
  -- than the quota. The quota is an int64.
  pub intel_scan_keeps_quota :
      (scans : List (ScanInput × Time × Time)) (s : State db json l)
      → pos 0 <ℤ l.daily_quota
      → FitsInt64 l.daily_quota
      → pos 0 ≤ℤ s.spent
      → s.spent ≤ℤ l.daily_quota
      → let s' = scan_each scans s in
        (s'.spent ≡ s.spent +ℤ pos (answers scans s)) × (s'.spent ≤ℤ l.daily_quota)
  intel_scan_keeps_quota [] s q f z h = (omega int_laws, h)
  intel_scan_keeps_quota ((i, now, later) ∷ rest) s q f z h =
      let (e, z', h') = one_keeps_quota i now later s q f z h in
      let (e', h'') =
        intel_scan_keeps_quota rest (intel_scan db json l i now later s).1 q f z' h' in
      (e' ∙ chain _ _ _ _ e, h'')
    where
      chain : (a b : ℤ) (m n : ℕ) → b ≡ a +ℤ pos m → b +ℤ pos n ≡ a +ℤ pos (m + n)
      chain a b m n e = rw e (omega int_laws)
