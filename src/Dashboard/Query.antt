-- ===== src/Dashboard/Query.antt =====
-- internal/dashboard/es.go: the filters of a caller, and the query that they make.
use s3nitor.Prelude.{
  String, str_append, str_eq, Bool, true, ◌||◌, List, [], ◌∷◌, ◌++◌, if◌then◌else◌,
}
use s3nitor.Dashboard.Json.{Json, bool, text, array, object, end, field, single, array_of}

-- `is_match` is "", "true" or "false" in a request of the page, and any text in another.
pub record Filters : Type 0 where
  pub query : String
  pub scanner : String
  pub severity : String
  pub is_match : String
  pub since : String

abbrev pub term : String → Json → Json
term name v = single "term" (single name v)

abbrev pub key_like : String → Json
key_like q = single "wildcard" (
    single "key" (
      object (
        field "value" (text (str_append "*" (str_append q "*")))
          (field "case_insensitive" (bool true) end))))

abbrev pub scanned_since : String → Json
scanned_since since = single "range" (single "scanned_at" (single "gte" (text since)))

unfoldable pub must_of : Filters → List Json
must_of f = if str_eq f.query "" then [] else key_like f.query ∷ []

-- The loop over a map of two fields, in the order in which it is ranged over.
unfoldable pub terms_of : List (String × String) → List Json
terms_of [] = []
terms_of ((name, value) ∷ rest) =
    let others = terms_of rest in
    if str_eq value "" then others else term name (text value) ∷ others

-- Go leaves the order open: with `swapped`, the severity comes first.
unfoldable pub fields_of : Bool → Filters → List (String × String)
fields_of swapped f =
    if swapped
    then ("severity", f.severity) ∷ ("scanner", f.scanner) ∷ []
    else ("scanner", f.scanner) ∷ ("severity", f.severity) ∷ []

unfoldable pub match_of : Filters → List Json
match_of f =
    if str_eq f.is_match "true" || str_eq f.is_match "false"
    then term "match" (bool (str_eq f.is_match "true")) ∷ []
    else []

unfoldable pub since_of : Filters → List Json
since_of f = if str_eq f.since "" then [] else scanned_since f.since ∷ []

unfoldable pub filter_of : Bool → Filters → List Json
unfolding terms_of fields_of match_of since_of
filter_of swapped f = terms_of (fields_of swapped f) ++ match_of f ++ since_of f

unfoldable pub joined : List Json → List Json → Json
joined must filter = elim (must ++ filter) [
  | [] ↦ single "match_all" (object end)
  | c ∷ cs ↦
      single "bool" (
        object
          (field "must" (array (array_of must)) (field "filter" (array (array_of filter)) end)))
]

unfoldable pub query : Bool → Filters → Json
unfolding must_of filter_of joined
query swapped f = joined (must_of f) (filter_of swapped f)
