-- ===== src/Database/Pragmas.antt =====
-- internal/db/db.go: what sqliteDSN makes of the parameters.
use s3nitor.Prelude.{
  ◌≡◌, refl, sym, subst, ap, ◌∙◌, String, str_eq, Bool, true, false, inl, inr, Bool-cases, [], ◌∷◌,
  eq_iff, if◌then◌else◌,
}
use s3nitor.Database.{Params, get, without, set, add_pragmas, pragmas}

get-without :
    (k key : String) (params : Params)
    → str_eq k key ≡ false
    → get k (without key params) ≡ get k params
unfolding get without
get-without k key [] h = refl
get-without k key ((j, v) ∷ rest) h = elim (Bool-cases (str_eq key j)) [
  | inl e ↦
      let other : str_eq k j ≡ false = subst (λ x. str_eq k x ≡ false) ((eq_iff key j).0 e) h in
      rw (e, other, without, get) (get-without k key rest h)
  | inr e ↦ rw (e, without, get) (ap (λ x. if str_eq k j then v else x) (get-without k key rest h))
]

get-set :
    (k key v : String) (params : Params)
    → get k (set key v params) ≡ (if str_eq k key then v else get k params)
unfolding get set
get-set k key v params = elim (Bool-cases (str_eq k key)) [
  | inl e ↦ rw e refl
  | inr e ↦ rw e (get-without k key params e)
]

-- The value of a key that has one, and otherwise the default.
abbrev own_or : String → String → Params → String
own_or key v params = if str_eq (get key params) "" then v else get key params

get-added :
    (k key v : String) (params : Params)
    → get k (if str_eq (get key params) "" then set key v params else params)
      ≡ (if str_eq k key then own_or key v params else get k params)
get-added k key v params = elim (Bool-cases (str_eq (get key params) "")) [
  | inl e ↦ rw e (get-set k key v params)
  | inr e ↦ rw e (elim (Bool-cases (str_eq k key)) [
    | inl same ↦ rw same (ap (λ x. get x params) ((eq_iff k key).0 same))
    | inr other ↦ rw other refl
  ])
]

added : String → String → Params → Params
added key v params = if str_eq (get key params) "" then set key v params else params

get-both :
    (k a v b w : String) (params : Params)
    → str_eq b a ≡ false
    → get k (added b w (added a v params)) ≡ (
        if str_eq k b
        then own_or b w params
        else (if str_eq k a then own_or a v params else get k params))
unfolding added
get-both k a v b w params apart =
    let kept : get b (added a v params) ≡ get b params = get-added b a v params ∙ rw apart refl in
    get-added k b w (added a v params)
    ∙ ap (λ x. if str_eq k b then (if str_eq x "" then w else x) else get k (added a v params)) kept
    ∙ ap (λ x. if str_eq k b then own_or b w params else x) (get-added k a v params)

apart_keys : (k : String) → str_eq k "_busy_timeout" ≡ true → str_eq k "_journal_mode" ≡ false
apart_keys k h =
    subst (λ x. str_eq x "_journal_mode" ≡ false) (sym ((eq_iff k "_busy_timeout").0 h)) refl

swapped_tests {ℓ} :
    {A : Type ℓ} (p q : Bool) (x y z : A)
    → (p ≡ true → q ≡ false)
    → (if p then x else (if q then y else z)) ≡ (if q then y else (if p then x else z))
swapped_tests true q x y z h = rw (h refl) refl
swapped_tests false q x y z h = refl

-- In whatever order the pragmas are added, a DSN that has a journal mode or a busy timeout keeps it, one
-- that has none gets WAL and 5000, and no other parameter changes.
pragmas_are_defaults :
    (swapped : Bool) (k : String) (params : Params)
    → get k (add_pragmas (pragmas swapped) params) ≡ (
        if str_eq k "_journal_mode"
        then own_or "_journal_mode" "WAL" params
        else (if str_eq k "_busy_timeout"
            then own_or "_busy_timeout" "5000" params
            else get k params))
unfolding add_pragmas pragmas added
pragmas_are_defaults true k params =
    get-both k "_busy_timeout" "5000" "_journal_mode" "WAL" params refl
pragmas_are_defaults false k params =
    get-both k "_journal_mode" "WAL" "_busy_timeout" "5000" params refl
    ∙ swapped_tests (str_eq k "_busy_timeout") (str_eq k "_journal_mode")
        (own_or "_busy_timeout" "5000" params) (own_or "_journal_mode" "WAL" params) (get k params)
        (apart_keys k)
