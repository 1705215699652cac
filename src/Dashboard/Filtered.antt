-- ===== src/Dashboard/Filtered.antt =====
-- internal/dashboard/es.go: what the query of the filters asks of a document, where a search engine
-- reads match_all, bool, term, wildcard and range as documented. Which texts a pattern finds, and which
-- times are from another on, is left to the engine.
use s3nitor.Prelude.{
  ◌≡◌, String, str_append, str_eq, Bool, true, false, ◌&&◌, ◌||◌, List, [], ◌∷◌, if◌then◌else◌,
}
use s3nitor.Dashboard.Json.{
  Json, Fields, bool, text, array, object, end, field, single, array_of, value_at,
}
use s3nitor.Dashboard.Query.{Filters, term, query}

abbrev pub every : (Json → Bool) → List Json → Bool
every p [] = true
every p (x ∷ xs) = p x && every p xs

abbrev pub is_text : String → Json → Bool
is_text v x = elim x [ text s ↦ str_eq s v | _ ↦ false ]

abbrev pub is_bool : Bool → Json → Bool
is_bool b x = elim x [ bool c ↦ if b then c else (if c then false else true) | _ ↦ false ]

pub record IsSearch (accepts : Json → Fields → Bool) : Type 0 where
  -- whether a value has a text in it, whatever the case, and whether it is from a time on
  pub contains : String → Json → Bool
  pub is_since : String → Json → Bool
  pub accepts_all : (d : Fields) → accepts (single "match_all" (object end)) d ≡ true
  pub accepts_bool :
      (ms fs : List Json) (d : Fields)
      → accepts
          (single "bool" (
            object (field "must" (array (array_of ms)) (field "filter" (array (array_of fs)) end))))
          d
        ≡ (every (λ q. accepts q d) ms && every (λ q. accepts q d) fs)
  pub accepts_text :
      (name v : String) (d : Fields) → accepts (term name (text v)) d ≡ is_text v (value_at name d)
  pub accepts_truth :
      (name : String) (b : Bool) (d : Fields)
      → accepts (term name (bool b)) d ≡ is_bool b (value_at name d)
  pub accepts_pattern :
      (name q : String) (d : Fields)
      → accepts
          (single "wildcard" (
            single name (
              object (
                field "value"
                  (text (str_append "*" (str_append q "*")))
                  (field "case_insensitive" (bool true) end)))))
          d
        ≡ contains q (value_at name d)
  pub accepts_range :
      (name v : String) (d : Fields)
      → accepts (single "range" (single name (single "gte" (text v)))) d
        ≡ is_since v (value_at name d)

module _ (accepts : Json → Fields → Bool) (search : IsSearch accepts) where
  abbrev by_key : Filters → Fields → Bool
  by_key f d = str_eq f.query "" || search.contains f.query (value_at "key" d)

  abbrev by_field : String → String → Fields → Bool
  by_field name v d = str_eq v "" || is_text v (value_at name d)

  abbrev by_match : Filters → Fields → Bool
  by_match f d =
      if str_eq f.is_match "true"
      then is_bool true (value_at "match" d)
      else (if str_eq f.is_match "false" then is_bool false (value_at "match" d) else true)

  abbrev by_time : Filters → Fields → Bool
  by_time f d = str_eq f.since "" || search.is_since f.since (value_at "scanned_at" d)

  -- A document that every filter which the caller has set lets through.
  abbrev pub admits : Filters → Fields → Bool
  admits f d =
      by_key f d
      && (by_field "scanner" f.scanner d
          && (by_field "severity" f.severity d && (by_match f d && by_time f d)))
