-- ===== src/Sandbox/Grades.antt =====
-- sandbox.go: the grade of a score, against the thresholds.
use s3nitor.Prelude.{ℕ, ◌≤◌, ◌≡◌, refl, str_eq, Bool, true, false, ◌||◌, arith, if◌then◌else◌}
use s3nitor.Scanner.{
  Float64, Severity, severity_info, severity_low, severity_medium, severity_high, severity_critical,
  Detail,
}
use s3nitor.Sandbox.{Sandbox, Floats, gt, severity, grade}

-- What a comparison of numbers does: `ge` is an order, and `eq` goes with it.
pub record IsOrder (fl : Floats) : Type 0 where
  pub trans : (a b c : Float64) → fl.ge a b ≡ true → fl.ge b c ≡ true → fl.ge a c ≡ true
  pub gt_trans : (a b c : Float64) → fl.ge a b ≡ true → gt fl b c ≡ true → gt fl a c ≡ true

-- The thresholds do not fall.
pub record IsSorted (fl : Floats) (s : Sandbox) : Type 0 where
  pub high : fl.ge s.severity_high_at s.severity_medium_at ≡ true
  pub critical : fl.ge s.severity_critical_at s.severity_high_at ≡ true

abbrev is_alert : Severity → Bool
is_alert v = str_eq v severity_medium || str_eq v severity_high || str_eq v severity_critical

abbrev rank : Severity → ℕ
rank v =
    if str_eq v severity_critical
    then 4
    else (if str_eq v severity_high
        then 3
        else (if str_eq v severity_medium then 2 else (if str_eq v severity_low then 1 else 0)))

-- The grade, by the answers to the four questions.
abbrev graded : Bool → Bool → Bool → Bool → Severity
graded c h m l =
    if c
    then severity_critical
    else (if h
        then severity_high
        else (if m then severity_medium else (if l then severity_low else severity_info)))

graded-is_alert :
    (c h m l : Bool) → (c ≡ true → h ≡ true) → (h ≡ true → m ≡ true) → m ≡ is_alert (graded c h m l)
graded-is_alert true h m l p q = q (p refl)
graded-is_alert false true m l p q = q refl
graded-is_alert false false true l p q = refl
graded-is_alert false false false true p q = refl
graded-is_alert false false false false p q = refl

abbrev level : Bool → Bool → Bool → Bool → ℕ
level c h m l = if c then 4 else (if h then 3 else (if m then 2 else (if l then 1 else 0)))

rank-graded : (c h m l : Bool) → rank (graded c h m l) ≡ level c h m l
rank-graded true h m l = refl
rank-graded false true m l = refl
rank-graded false false true l = refl
rank-graded false false false true = refl
rank-graded false false false false = refl

level_mono :
    (c h m l c' h' m' l' : Bool)
    → (c ≡ true → c' ≡ true)
    → (h ≡ true → h' ≡ true)
    → (m ≡ true → m' ≡ true)
    → (l ≡ true → l' ≡ true)
    → level c h m l ≤ level c' h' m' l'
level_mono c h m l c' h' m' l' pc ph pm pl = ground arith

module _ (fl : Floats) (order : IsOrder fl) (s : Sandbox) where
  -- With thresholds that do not fall, a verdict is a match exactly if it is graded `medium` or worse.
  match_is_alert :
      (score : Float64) (d : Detail)
      → IsSorted fl s
      → (grade fl s score d).is_match ≡ is_alert (grade fl s score d).severity
  unfolding grade severity
  match_is_alert score d sorted =
      graded-is_alert (fl.ge score s.severity_critical_at) (fl.ge score s.severity_high_at)
        (fl.ge score s.severity_medium_at) (gt fl score fl.zero)
        (λ h. order.trans score s.severity_critical_at s.severity_high_at h sorted.critical)
        (λ h. order.trans score s.severity_high_at s.severity_medium_at h sorted.high)

  -- A higher score is never graded lower, whatever the thresholds are.
  severity_mono :
      (a b : Float64) → fl.ge b a ≡ true → rank (severity fl s a) ≤ rank (severity fl s b)
  unfolding severity
  severity_mono a b h =
      let ca = fl.ge a s.severity_critical_at in
      let ha = fl.ge a s.severity_high_at in
      let ma = fl.ge a s.severity_medium_at in
      let la = gt fl a fl.zero in
      let cb = fl.ge b s.severity_critical_at in
      let hb = fl.ge b s.severity_high_at in
      let mb = fl.ge b s.severity_medium_at in
      let lb = gt fl b fl.zero in
      omega (
        arith,
        rank-graded ca ha ma la,
        rank-graded cb hb mb lb,
        level_mono ca ha ma la cb hb mb lb (order.trans b a s.severity_critical_at h)
            (order.trans b a s.severity_high_at h) (order.trans b a s.severity_medium_at h)
            (order.gt_trans b a fl.zero h),
      )
