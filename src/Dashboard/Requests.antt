-- ===== src/Dashboard/Requests.antt =====
-- internal/dashboard/api.go: the requests of the four views. `swapped` is the order in which Go ranges
-- over the fields of a query.
use s3nitor.Prelude.{ℕ, String, str_eq, Bool, true, ◌||◌, List, [], ◌∷◌, any, if◌then◌else◌}
use s3nitor.Prelude.Int.{ℤ, pos, ltb_ℤ, leb_ℤ}
use s3nitor.Dashboard.Json.{Json, bool, int, text, array, object, item, nil, end, field, single}
use s3nitor.Dashboard.Query.{Filters, query, term}

-- `{"terms": {"field": name, "size": n}}`.
abbrev terms : String → ℕ → Json
terms name n = single "terms" (object (field "field" (text name) (field "size" (int (pos n)) end)))

abbrev on_field : String → String → Json
on_field kind name = single kind (single "field" (text name))

unfoldable pub summary_request : Bool → Filters → Json
unfolding query
summary_request swapped f = object (
    field "size" (int (pos 0)) (
      field "query" (query swapped f) (
        field "aggs"
          (object (
            field "objects" (on_field "cardinality" "file_id") (
              field "matches" (single "filter" (term "match" (bool true))) (
                field "errors" (single "filter" (on_field "exists" "error")) (
                  field "gaps" (single "filter" (term "scanner" (text "size_gate"))) (
                    field "severity" (terms "severity" 10) (
                      field "scanner" (terms "scanner" 20)
                        (field "last" (on_field "max" "scanned_at") end))))))))
          end)))

unfoldable pub sortable_fields : List String
sortable_fields = "scanned_at" ∷ "severity" ∷ "size" ∷ "key" ∷ "scanner" ∷ "match" ∷ []

unfoldable pub sorted_by : String → String
unfolding sortable_fields
sorted_by field_name = if any (str_eq field_name) sortable_fields then field_name else "scanned_at"

unfoldable pub order_of : String → String
order_of order = if str_eq order "asc" then order else "desc"

-- A number outside 1 .. `most` gives way to the default.
unfoldable pub within : ℕ → ℕ → ℤ → ℤ
within most default' n = if leb_ℤ n (pos 0) || ltb_ℤ (pos most) n then pos default' else n

unfoldable pub findings_request : Bool → Filters → String → String → ℤ → ℤ → Json
unfolding sorted_by order_of within query
findings_request swapped f sort_by order from size = object (
    field "from" (int from) (
      field "size" (int (within 200 50 size)) (
        field "query" (query swapped f) (
          field "sort"
            (array (item (single (sorted_by sort_by) (single "order" (text (order_of order)))) nil))
            (field "track_total_hits" (bool true) end)))))

unfoldable interval_of : String → String
interval_of interval =
    if any (str_eq interval) ("hour" ∷ "day" ∷ "minute" ∷ "week" ∷ []) then interval else "hour"

unfoldable pub trends_request : Bool → Filters → String → Json
unfolding query interval_of
trends_request swapped f interval = object (
    field "size" (int (pos 0)) (
      field "query" (query swapped f) (
        field "aggs"
          (single "over_time" (
            object (
              field "date_histogram"
                (object (
                  field "field" (text "scanned_at") (
                    field "calendar_interval" (text (interval_of interval))
                      (field "min_doc_count" (int (pos 0)) end))))
                (field "aggs" (single "severity" (terms "severity" 10)) end))))
          end)))

unfoldable pub coverage_request : ℤ → Json
unfolding within
coverage_request limit = object (
    field "size" (int (within 500 100 limit)) (
      field "query" (term "scanner" (text "size_gate"))
        (field "sort" (array (item (single "size" (single "order" (text "desc"))) nil)) end)))
