-- ===== src/Bytes.antt =====
-- The functions of Go's `strings` that the code calls, on the bytes of a text. Spaces and letters
-- are those of ASCII.
use Prim.Native.Char.{code}
use s3nitor.Prelude.{
  ℕ, ◌+◌, ◌-◌, String, ◌≡◌, refl, Bool, true, false, ◌&&◌, ◌||◌, Option, none, some, List, [], ◌∷◌,
  map, leb, ◌==◌, if◌then◌else◌,
}
use mathlib.Core.List.{reverse}

-- The code points of a text: its bytes, if it is ASCII.
abbrev pub codes : String → List ℕ
codes String.[] = []
codes (String.◌∷◌ c s) = code c ∷ codes s

unfoldable pub is_space : ℕ → Bool
is_space c = (leb 9 c && leb c 13) || c == 32

unfoldable pub trim_left : List ℕ → List ℕ
unfolding is_space
trim_left [] = []
trim_left (c ∷ s) = let rest = trim_left s in if is_space c then rest else c ∷ s

-- `strings.TrimSpace`.
unfoldable pub trim_space : List ℕ → List ℕ
unfolding trim_left
trim_space s = reverse (trim_left (reverse (trim_left s)))

-- `strings.ToUpper` and `strings.ToLower`.
unfoldable pub to_upper : ℕ → ℕ
to_upper c = if leb b'a' c && leb c b'z' then c - 32 else c

unfoldable to_lower : ℕ → ℕ
to_lower c = if leb b'A' c && leb c b'Z' then c + 32 else c

unfoldable pub upper : List ℕ → List ℕ
unfolding to_upper
upper s = map to_upper s

unfoldable pub lower : List ℕ → List ℕ
unfolding to_lower
lower s = map to_lower s

-- What stands behind a prefix, if the text has it (`HasPrefix` and `TrimPrefix`).
unfoldable pub after_prefix : List ℕ → List ℕ → Option (List ℕ)
after_prefix [] s = some s
after_prefix (p ∷ ps) [] = none
after_prefix (p ∷ ps) (c ∷ s) = let rest = after_prefix ps s in if p == c then rest else none

unfoldable pub has_prefix : List ℕ → List ℕ → Bool
unfolding after_prefix
has_prefix p s = elim (after_prefix p s) [ some rest ↦ true | none ↦ false ]

-- What stands before a suffix, if the text has it (`HasSuffix` and `TrimSuffix`).
unfoldable pub before_suffix : List ℕ → List ℕ → Option (List ℕ)
unfolding after_prefix
before_suffix p s = elim (after_prefix (reverse p) (reverse s)) [
  | some rest ↦ some (reverse rest)
  | none ↦ none
]

-- `strings.Split` at a separator of one byte: never empty.
unfoldable pub split_from : ℕ → List ℕ → List ℕ → List (List ℕ)
split_from sep part [] = reverse part ∷ []
split_from sep part (c ∷ s) =
    let here = reverse part ∷ split_from sep [] s in
    let on = split_from sep (c ∷ part) s in if c == sep then here else on

unfoldable pub split : ℕ → List ℕ → List (List ℕ)
unfolding split_from
split sep s = split_from sep [] s

-- `strings.Fields`: the runs of bytes that are not spaces.
unfoldable pub fields_from : List ℕ → List ℕ → List (List ℕ)
unfolding is_space
fields_from [] [] = []
fields_from (p ∷ part) [] = reverse (p ∷ part) ∷ []
fields_from [] (c ∷ s) =
    let skip = fields_from [] s in
    let on = fields_from (c ∷ []) s in if is_space c then skip else on
fields_from (p ∷ part) (c ∷ s) =
    let ended = reverse (p ∷ part) ∷ fields_from [] s in
    let on = fields_from (c ∷ p ∷ part) s in if is_space c then ended else on

unfoldable pub fields : List ℕ → List (List ℕ)
unfolding fields_from
fields s = fields_from [] s

trimmed : trim_space (codes "  512 MB\n") ≡ codes "512 MB"
unfolding trim_space
trimmed = refl

parts : split b',' (codes "a,,b") ≡ codes "a" ∷ [] ∷ codes "b" ∷ []
unfolding split
parts = refl

words : fields (codes " rule  path ") ≡ codes "rule" ∷ codes "path" ∷ []
unfolding fields
words = refl

unit : before_suffix (codes "MB") (codes "512MB") ≡ some (codes "512")
unfolding before_suffix
unit = refl
