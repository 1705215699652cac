-- ===== src/Config/Getters.antt =====
-- internal/config/config.go: the readers of one setting each (getInt and the like, ParseBytes). Floats
-- and the parsers of floats and durations are parameters.
use s3nitor.Prelude.{
  ℕ, ◌+◌, ◌-◌, ◌*◌, ◌^◌, String, str_append, str_eq, Bool, ◌&&◌, Option, none, some, List, [], ◌∷◌,
  leb, ltb, ◌==◌, if◌then◌else◌,
}
use s3nitor.Prelude.Int.{ℤ, pos, negsuc}
use s3nitor.Scanner.{Duration, Float64, failure}
use s3nitor.Fallible.{Try, ok, err}
use s3nitor.Bytes.{codes, trim_space, upper, before_suffix, split}

abbrev pub kb : ℕ
kb = 2 ^ 10

abbrev pub mb : ℕ
mb = 2 ^ 20

abbrev pub gb : ℕ
gb = 2 ^ 30

-- The variables that are set.
abbrev pub Environment : Type 0
Environment = String → Option String

-- Texts as numbers, float64 as numbers, and `text`, which makes a text of bytes.
pub record Parsers : Type 0 where
  pub parse_float : List ℕ → Option Float64
  pub parse_duration : String → Option Duration
  pub of_int : ℤ → Float64
  pub is_negative : Float64 → Bool
  pub mul : Float64 → Float64 → Float64
  pub to_int64 : Float64 → ℤ
  pub text : List ℕ → String

-- `os.Getenv`.
unfoldable pub getenv : Environment → String → String
getenv env key = elim (env key) [ some v ↦ v | none ↦ "" ]

unfoldable pub get_or_default : Environment → String → String → String
unfolding getenv
get_or_default env key default' =
    let val = getenv env key in if str_eq val "" then default' else val

unfoldable pub get_unless_set : Environment → String → String → String
get_unless_set env key default' = elim (env key) [ some v ↦ v | none ↦ default' ]

-- The parts that are not blank, without the spaces around them.
unfoldable parts_of : (List ℕ → String) → List (List ℕ) → List String
parts_of text [] = []
parts_of text (part ∷ parts) =
    let rest = parts_of text parts in
    elim (trim_space part) [ [] ↦ rest | c ∷ v ↦ text (c ∷ v) ∷ rest ]

unfoldable pub get_list : Environment → Parsers → String → List String → List String
unfolding parts_of split
get_list env p key default' = elim (env key) [
  | none ↦ default'
  | some raw ↦ parts_of p.text (split b',' (codes raw))
]

unfoldable pub is_digit : ℕ → Bool
is_digit c = leb b'0' c && leb c b'9'

-- The number that decimal digits stand for, behind the digits that are read.
unfoldable pub digits : ℕ → List ℕ → Option ℕ
unfolding is_digit
digits n [] = some n
digits n (c ∷ s) = let rest = digits (n * 10 + c - b'0') s in if is_digit c then rest else none

unfoldable pub magnitude : List ℕ → Option ℕ
unfolding digits
magnitude [] = none
magnitude (c ∷ s) = digits 0 (c ∷ s)

unfoldable pub positive : Option ℕ → Option ℤ
positive none = none
positive (some n) = if ltb n (2 ^ 63) then some (pos n) else none

unfoldable negative : Option ℕ → Option ℤ
negative none = none
negative (some n) =
    if n == 0 then some (pos 0) else (if leb n (2 ^ 63) then some (negsuc (n - 1)) else none)

-- `strconv.Atoi`, for an int of 64 bits.
unfoldable pub atoi : List ℕ → Option ℤ
unfolding magnitude positive negative
atoi [] = none
atoi (c ∷ s) =
    if c == b'-'
    then negative (magnitude s)
    else (if c == b'+' then positive (magnitude s) else positive (magnitude (c ∷ s)))

-- The default where a text is blank or cannot be read; the log line is left out.
unfoldable or_else {ℓ} : {A : Type ℓ} → String → Option A → A → A
or_else raw none default' = default'
or_else raw (some v) default' = if str_eq raw "" then default' else v

unfoldable pub get_int : Environment → String → ℤ → ℤ
unfolding getenv atoi or_else
get_int env key default' = let raw = getenv env key in or_else raw (atoi (codes raw)) default'

unfoldable pub get_duration : Environment → Parsers → String → Duration → Duration
unfolding getenv or_else
get_duration env p key default' =
    let raw = getenv env key in or_else raw (p.parse_duration raw) default'

unfoldable pub get_float : Environment → Parsers → String → Float64 → Float64
unfolding getenv or_else
get_float env p key default' =
    let raw = getenv env key in or_else raw (p.parse_float (codes raw)) default'

-- The units in the order in which they are tried.
unfoldable pub units : List (List ℕ × ℕ)
units =
    (codes "KIB", kb)
    ∷ (codes "MIB", mb)
    ∷ (codes "GIB", gb)
    ∷ (codes "KB", kb)
    ∷ (codes "MB", mb)
    ∷ (codes "GB", gb)
    ∷ (codes "K", kb)
    ∷ (codes "M", mb)
    ∷ (codes "G", gb)
    ∷ (codes "B", 1)
    ∷ []

-- The loop over the units, up to the first that the text ends with.
unfoldable pub take_unit : List (List ℕ × ℕ) → List ℕ → List ℕ × ℕ
unfolding before_suffix trim_space
take_unit [] s = (s, 1)
take_unit ((suffix, factor) ∷ us) s = elim (before_suffix suffix s) [
  | some rest ↦ (trim_space rest, factor)
  | none ↦ take_unit us s
]

unfoldable pub sized : Parsers → List ℕ → List ℕ × ℕ → Try ℤ
sized p raw (s, factor) = elim (p.parse_float s) [
  | none ↦ err (failure (str_append "cannot parse " (str_append (p.text raw) " as a number")))
  | some value ↦
      if p.is_negative value
      then err (failure (str_append "size cannot be negative: " (p.text raw)))
      else ok (p.to_int64 (p.mul value (p.of_int (pos factor))))
]

unfoldable pub parse_bytes : Parsers → List ℕ → Try ℤ
unfolding take_unit sized units upper trim_space
parse_bytes p raw = elim (trim_space (upper raw)) [
  | [] ↦ err (failure "empty size")
  | c ∷ s ↦ sized p raw (take_unit units (c ∷ s))
]

unfoldable or_size : Try ℤ → ℤ → ℤ
or_size (ok v) default' = v
or_size (err e) default' = default'

unfoldable pub get_bytes : Environment → Parsers → String → ℤ → ℤ
unfolding getenv parse_bytes or_size
get_bytes env p key default' =
    let raw = getenv env key in
    if str_eq raw "" then default' else or_size (parse_bytes p (codes raw)) default'
