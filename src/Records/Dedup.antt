-- ===== src/Records/Dedup.antt =====
-- internal/db/file_record.go: the batched dedup query against a lookup of each id.
use s3nitor.Prelude.{
  ℕ, zero, suc, ◌<◌, ◌≤◌, ◌≡◌, ◌∙◌, String, str_eq, eq_iff, Bool, true, false, ◌&&◌, ◌||◌,
  Bool-cases, eq_of_iff, subst, Option, none, some, Option-cases, List, [], ◌∷◌, ◌++◌, map, All,
  any, any-append, any-take-drop, any-map, length, length-drop, take, drop, inl, inr, arith,
}
use s3nitor.Table.{rows, Answer-cases}
use s3nitor.Records.{
  FileRecord, RecordTable, record_key, Seen, seen, seen_failed, chunk, seen_chunk, seen_loop,
  seen_file_ids,
}

abbrev pub has_id : String → List String → Bool
has_id id ids = any (str_eq id) ids

abbrev pub is_recorded : Option FileRecord → Bool
is_recorded none = false
is_recorded (some r) = true

-- The answer about one id, unless the query failed.
abbrev pub Tells : String → Bool → Seen → Type 0
Tells id b (seen ids) = has_id id ids ≡ b
Tells id b (seen_failed e) = Unit

chunk_pos : 0 < chunk
unfolding chunk
chunk_pos = omega arith

-- What is known after one chunk and the rest, against what is known of both.
regroup :
    (a m am t d x r : Bool)
    → am ≡ (a || m)
    → m ≡ (t && r)
    → (t || d) ≡ x
    → (am || d && r) ≡ (a || x && r)
regroup a m am t d x r e f g = ground arith

module _ (db : RecordTable) (s : db.State) (id : String) where
  -- A row that is found has the id, was asked for, and is recorded.
  found_is_row :
      (c : List String) (rs : List FileRecord)
      → All (λ r. (db.row_at s (record_key r) ≡ some r) × (any (str_eq r.file_id) c ≡ true)) rs
      → has_id id (map record_key rs) ≡ true
      → (has_id id c ≡ true) × (is_recorded (db.row_at s id) ≡ true)
  found_is_row c [] a h = cc
  found_is_row c (r ∷ rs) (a, as') h = elim (Bool-cases (str_eq id r.file_id)) [
    | inl same ↦ let e = (eq_iff id r.file_id).0 same in (rw e a.1, rw (e, a.0))
    | inr other ↦ found_is_row c rs as' (rw other at h)
  ]

  row_is_found :
      (c : List String) (rs : List FileRecord) (r : FileRecord)
      → seen_chunk db c s ≡ rows rs
      → db.row_at s id ≡ some r
      → has_id id c ≡ true
      → has_id id (map record_key rs) ≡ true
  unfolding seen_chunk
  row_is_found c rs r e at h =
      let k = (eq_iff id r.file_id).0 (db.row_at-key s id r at) in
      any-map (str_eq id) record_key rs ∙ db.select_all_complete _ s rs id r e at (rw (← k) h)

  seen_chunk-eq :
      (c : List String) (rs : List FileRecord)
      → seen_chunk db c s ≡ rows rs
      → has_id id (map record_key rs) ≡ (has_id id c && is_recorded (db.row_at s id))
  unfolding seen_chunk
  seen_chunk-eq c rs e =
      eq_of_iff _ _
        (λ h.
          let (asked, recorded) = found_is_row c rs (db.select_all_sound _ s rs e) h in
          rw (asked, recorded))
        (λ h. elim (Option-cases (db.row_at s id)) [
          | inl none_there ↦ absurd (ground (arith, rw none_there at h))
          | inr (r, at) ↦ row_is_found c rs r e at (ground (arith, rw at at h))
        ])

  seen_loop-Tells :
      (fuel : ℕ) (acc rest : List String)
      → length rest ≤ fuel
      → Tells id
          (has_id id acc || (has_id id rest && is_recorded (db.row_at s id)))
          (seen_loop db fuel acc rest s)
  unfolding seen_loop
  seen_loop-Tells fuel acc [] h = ground arith
  seen_loop-Tells zero acc (i ∷ rest) h = absurd (omega arith)
  seen_loop-Tells (suc fuel) acc (i ∷ rest) h =
      elim (Answer-cases (seen_chunk db (take chunk (i ∷ rest)) s)) [
        | inl (x, e) ↦ rw (e, seen_loop) tt
        | inr (rs, e) ↦
            rw (e, seen_loop)
              (subst
                (λ b.
                  Tells id b
                    (seen_loop db fuel (acc ++ map record_key rs) (drop chunk (i ∷ rest)) s))
                (regroup _ _ _ _ _ _ _ (any-append (str_eq id) acc (map record_key rs))
                  (seen_chunk-eq (take chunk (i ∷ rest)) rs e)
                  (any-take-drop (str_eq id) chunk (i ∷ rest)))
                (seen_loop-Tells fuel _ (drop chunk (i ∷ rest))
                  (omega (arith, length-drop chunk (i ∷ rest), chunk_pos))))
      ]

-- For every id among those that discovery asks about, SeenFileIDs reports it exactly when it has a
-- record, as one query for each id would, unless a query fails: the chunks of 500 lose nothing.
pub seen_file_ids-Tells :
    (db : RecordTable) (s : db.State) (ids : List String) (id : String)
    → has_id id ids ≡ true
    → Tells id (is_recorded (db.row_at s id)) (seen_file_ids db ids s)
unfolding seen_file_ids
seen_file_ids-Tells db s [] id h = cc
seen_file_ids-Tells db s (i ∷ ids) id h =
    subst (λ b. Tells id b (seen_file_ids db (i ∷ ids) s)) (ground arith)
      (seen_loop-Tells db s id (length (i ∷ ids)) [] (i ∷ ids) (omega arith))
