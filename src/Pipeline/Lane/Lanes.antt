-- ===== src/Pipeline/Lane/Lanes.antt =====
-- buildLanes: the lanes that the enabled scanners get, and their policies.
use s3nitor.Prelude.{
  ◌≡◌, refl, ap, ◌∙◌, inl, inr, String, str_eq, eq_iff, Bool, true, ◌&&◌, ◌||◌, Bool-cases, List,
  [], ◌∷◌, All, any, arith, if◌then◌else◌,
}
use s3nitor.Prelude.Int.{ℤ, pos}
use s3nitor.Scanner.{Scanner}
use s3nitor.Config.{Config}
use s3nitor.Limiter.{FloatOps}
use s3nitor.Pipeline.Payload.{is_spill}
use s3nitor.Pipeline.Lane.{Lane, lane_for, put_lane, add_lanes, build_lanes}

abbrev pub is_named : String → Lane → Bool
is_named name l = str_eq l.scanner.name name

abbrev is_wanted : String → Scanner → Bool
is_wanted name s = s.enabled && str_eq s.name name

any_put :
    (l : Lane) (m : List Lane) (name : String)
    → any (is_named name) (put_lane l m) ≡ (is_named name l || any (is_named name) m)
unfolding put_lane
any_put l [] name = refl
any_put l (k ∷ ks) name = elim (Bool-cases (str_eq k.scanner.name l.scanner.name)) [
  | inl same ↦
      let e = ap (λ n. str_eq n name) ((eq_iff k.scanner.name l.scanner.name).0 same) in
      rw same (absorbed _ _ _ e)
  | inr apart ↦ rw apart (swapped_or _ _ _ _ (any_put l ks name))
]
  where
    absorbed : (a b c : Bool) → a ≡ b → (b || c) ≡ (b || (a || c))
    absorbed a b c e = ground arith

    swapped_or : (a b c d : Bool) → d ≡ (b || c) → (a || d) ≡ (b || (a || c))
    swapped_or a b c d e = ground arith

All-put : (P : Lane → Type 0) (l : Lane) (m : List Lane) → P l → All P m → All P (put_lane l m)
unfolding put_lane
All-put P l [] h hs = (h, tt)
All-put P l (k ∷ ks) h (p, ps) = elim (Bool-cases (str_eq k.scanner.name l.scanner.name)) [
  | inl same ↦ rw same (h, ps)
  | inr apart ↦ rw apart (p, All-put P l ks h ps)
]

module _ (fl : FloatOps) (cfg : Config) (cpu_limit : ℤ) where
  -- A lane spills exactly if the configuration names its scanner, and then has one worker; any other
  -- lane blocks and has as many workers as the shared limiter admits.
  abbrev pub IsFitting : Lane → Type 0
  IsFitting l =
      let spills = any (str_eq l.scanner.name) cfg.spill_scanners in
      (is_spill l.policy ≡ spills)
      × (l.workers ≡ (if spills then pos 1 else cpu_limit))
      × (l.scanner.enabled ≡ true)

  lane_for-IsFitting : (s : Scanner) → s.enabled ≡ true → IsFitting (lane_for fl cfg cpu_limit s)
  unfolding lane_for is_spill
  lane_for-IsFitting s on = elim (Bool-cases (any (str_eq s.name) cfg.spill_scanners)) [
    | inl spills ↦ rw spills (rw spills refl, rw spills refl, on)
    | inr blocks ↦ rw blocks (rw blocks refl, rw blocks refl, on)
  ]

  lane_for-name : (s : Scanner) → (lane_for fl cfg cpu_limit s).scanner.name ≡ s.name
  unfolding lane_for
  lane_for-name s = elim (Bool-cases (any (str_eq s.name) cfg.spill_scanners)) [
    | inl spills ↦ rw spills refl
    | inr blocks ↦ rw blocks refl
  ]

  add_lanes-Fits :
      (scs : List Scanner) (m : List Lane) (name : String)
      → All IsFitting m
      → (any (is_named name) (add_lanes fl cfg cpu_limit scs m)
          ≡ (any (is_wanted name) scs || any (is_named name) m))
        × All IsFitting (add_lanes fl cfg cpu_limit scs m)
  unfolding add_lanes
  add_lanes-Fits [] m name h = (refl, h)
  add_lanes-Fits (s ∷ scs) m name h = elim (Bool-cases s.enabled) [
    | inr off ↦ simp off (add_lanes-Fits scs m name h)
    | inl on ↦
        let l = lane_for fl cfg cpu_limit s in
        let (found', fit) =
          add_lanes-Fits scs (put_lane l m) name
            (All-put IsFitting l m (lane_for-IsFitting s on) h) in
        let named = any_put l m name in
        let same = ap (λ n. str_eq n name) (lane_for-name s) in
        simp on (found' ∙ ground (arith, named, same), fit)
  ]

  -- Exactly the enabled scanners have a lane, by their names, whatever other scanner has the same
  -- name; and every lane is of an enabled scanner and has the policy and the number of workers that
  -- the configuration asks for.
  pub build_lanes-Fits :
      (scs : List Scanner) (name : String)
      → (any (is_named name) (build_lanes fl cfg cpu_limit scs) ≡ any (is_wanted name) scs)
        × All IsFitting (build_lanes fl cfg cpu_limit scs)
  unfolding build_lanes
  build_lanes-Fits scs name =
      let (found', fit) = add_lanes-Fits scs [] name tt in (found' ∙ ground arith, fit)
