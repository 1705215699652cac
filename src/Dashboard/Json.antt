-- ===== src/Dashboard/Json.antt =====
-- internal/dashboard/es.go: the values `any` that json.Marshal is given and json.Decode gives, and the
-- readers num, dig and buckets. An integer stands in requests only; an answer holds float64.
use s3nitor.Prelude.{String, str_eq, Bool, false, Option, none, some, List, [], ◌∷◌, if◌then◌else◌}
use s3nitor.Prelude.Int.{ℤ, pos}
use s3nitor.Scanner.{Float64}

mutual
  pub data Json : Type 0 where
    null : Json
    bool : Bool → Json
    int : ℤ → Json
    float : Float64 → Json
    text : String → Json
    array : Items → Json
    object : Fields → Json

  pub data Items : Type 0 where
    nil : Items
    item : Json → Items → Items

  -- A `map[string]any` by its entries, of which the first counts.
  pub data Fields : Type 0 where
    end : Fields
    field : String → Json → Fields → Fields

-- A map with one entry.
abbrev pub single : String → Json → Json
single k v = object (field k v end)

abbrev pub array_of : List Json → Items
array_of [] = nil
array_of (x ∷ xs) = item x (array_of xs)

-- `m[key]`.
unfoldable pub value_at : String → Fields → Json
value_at key end = null
value_at key (field k v m) = let other = value_at key m in if str_eq key k then v else other

unfoldable pub dig : Json → List String → Json
unfolding value_at
dig cur [] = cur
dig cur (p ∷ path) = elim cur [ object m ↦ dig (value_at p m) path | _ ↦ null ]

unfoldable pub maps_in : Items → List Fields
maps_in nil = []
maps_in (item x xs) = let rest = maps_in xs in elim x [ object m ↦ m ∷ rest | _ ↦ rest ]

unfoldable pub buckets : Json → List Fields
unfolding maps_in
buckets v = elim v [ array xs ↦ maps_in xs | _ ↦ [] ]

-- `int(f)` and `int64(f)`, which are alike where an int has 64 bits.
unfoldable pub num : (Float64 → ℤ) → Json → ℤ
num to_int v = elim v [ float f ↦ to_int f | _ ↦ pos 0 ]

-- The assertions `v.(string)`, `v.(bool)` and `v.(map[string]any)`, with the zero value where they fail.
unfoldable pub text_in : Json → String
text_in v = elim v [ text s ↦ s | _ ↦ "" ]

unfoldable pub bool_in : Json → Bool
bool_in v = elim v [ bool b ↦ b | _ ↦ false ]

unfoldable pub map_in : Json → Option Fields
map_in v = elim v [ object m ↦ some m | _ ↦ none ]

unfoldable pub map_or_empty : Json → Fields
map_or_empty v = elim v [ object m ↦ m | _ ↦ end ]

unfoldable pub key_in : Json → Option String
key_in v = elim v [ text s ↦ some s | _ ↦ none ]
