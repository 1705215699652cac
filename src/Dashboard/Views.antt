-- ===== src/Dashboard/Views.antt =====
-- internal/dashboard/api.go, server.go: what the views show, and the bounds of what they ask for.
use mathlib.Core.List.{Perm}
use mathlib.Core.List.Perm
use s3nitor.Prelude.{
  ℕ, ◌≤◌, ◌≡◌, refl, ◌⊎◌, inl, inr, String, str_eq, Bool, true, Bool-cases, List, [], ◌∷◌, map, any,
  All, ◌||◌, eq_iff, arith,
}
use s3nitor.Prelude.Int.{ℤ, pos, negsuc, ◌≤ℤ◌, ltb_ℤ, leb_ℤ}
use s3nitor.Scanner.{Float64}
use s3nitor.Dashboard.Json.{
  Json, Fields, int, float, text, array, item, nil, object, field, end, single, array_of, dig,
  value_at,
}
use s3nitor.Dashboard.Query.{Filters}
use s3nitor.Dashboard.Requests.{within, sorted_by, order_of, sortable_fields, findings_request}
use s3nitor.Dashboard.Api.{Gap}

-- The largest object first.
abbrev pub IsFalling : List Gap → Type 0
IsFalling [] = Unit
IsFalling (g ∷ gs) = All (λ h. h.size ≤ℤ g.size) gs × IsFalling gs

-- An object that was skipped for its size.
pub record Skipped : Type 0 where
  pub bucket : String
  pub key : String
  pub size : Float64
  pub reason : String
  pub limit : Float64
  pub scanned_at : String

-- Its document, and the answer to a search that finds some of them.
abbrev pub document_of : Skipped → Fields
document_of o = field "bucket" (text o.bucket) (
    field "key" (text o.key) (
      field "size" (float o.size) (
        field "scanner" (text "size_gate") (
          field "scanned_at" (text o.scanned_at) (
            field "detail"
              (object (field "limit" (float o.limit) (field "reason" (text o.reason) end))) end)))))

abbrev hit_of : Skipped → Json
hit_of o = single "_source" (object (document_of o))

abbrev pub answer_of : List Skipped → Fields
answer_of os = field "hits" (single "hits" (array (array_of (map hit_of os)))) end

-- What the view shows of it.
abbrev pub shown : (Float64 → ℤ) → Skipped → Gap
shown to_int o = record {
  key = o.key;
  bucket = o.bucket;
  size = to_int o.size;
  reason = o.reason;
  limit = to_int o.limit;
  scanned_at = o.scanned_at;
}

within-Bounded :
    (most default' : ℕ) (n : ℤ)
    → 1 ≤ default'
    → default' ≤ most
    → (m : ℕ) × (int (within most default' n) ≡ int (pos m)) × (1 ≤ m) × (m ≤ most)
unfolding within
within-Bounded most default' (pos m) low high =
    elim (Bool-cases (leb_ℤ (pos m) (pos 0) || ltb_ℤ (pos most) (pos m))) [
      | inl e ↦ (default', rw (e, within) refl, low, high)
      | inr e ↦ (m, rw (e, within) refl, ground (arith, e), ground (arith, e))
    ]
within-Bounded most default' (negsuc m) low high = (default', ground arith, low, high)

sorted_by-sortable : (s : String) → any (str_eq (sorted_by s)) sortable_fields ≡ true
unfolding sorted_by
sorted_by-sortable s = elim (Bool-cases (any (str_eq s) sortable_fields)) [
  | inl e ↦ rw (e, sorted_by) e
  | inr e ↦ rw (e, sorted_by) refl
]

order_of-cases : (s : String) → (order_of s ≡ "asc") ⊎ (order_of s ≡ "desc")
unfolding order_of
order_of-cases s = elim (Bool-cases (str_eq s "asc")) [
  | inl e ↦ rw (e, order_of) (inl ((eq_iff s "asc").0 e))
  | inr e ↦ rw (e, order_of) (inr refl)
]

-- Whatever a visitor sends, the findings view asks for 1 to 200 documents, sorted by one of the fields
-- that may be sorted by, upwards or downwards.
findings_request_is_bounded :
    (swapped : Bool) (f : Filters) (sort_by order : String) (from size : ℤ)
    → let request = findings_request swapped f sort_by order from size in
      ((n : ℕ) × (dig request ("size" ∷ []) ≡ int (pos n)) × (1 ≤ n) × (n ≤ 200))
      × ((key : String) × (dig request ("sort" ∷ [])
            ≡ array (item (single key (single "order" (text (order_of order)))) nil))
          × (any (str_eq key) sortable_fields ≡ true))
      × ((order_of order ≡ "asc") ⊎ (order_of order ≡ "desc"))
unfolding findings_request dig value_at
findings_request_is_bounded swapped f sort_by order from size = (
  within-Bounded 200 50 size (omega arith) (omega arith),
  (sorted_by sort_by, refl, sorted_by-sortable sort_by),
  order_of-cases order,
)
