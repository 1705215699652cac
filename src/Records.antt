-- ===== src/Records.antt =====
-- internal/db/file_record.go: one row for each version of an object that was handled.
pub mod Dedup
use s3nitor.Prelude.{
  ℕ, zero, suc, String, str_eq, Bool, Option, none, some, List, [], ◌∷◌, ◌++◌, map, any, length,
  take, drop,
}
use s3nitor.Prelude.Int.{ℤ}
use s3nitor.Scanner.{Time, GoError}
use s3nitor.Table.{Table, Write, Answer, rows, unread, Look}

pub record FileRecord : Type 0 where
  pub file_id : String
  pub bucket : String
  pub object_key : String
  pub version : String
  pub size : ℤ
  pub md5 : String
  pub sha1 : String
  pub sha256 : String
  pub last_modified : Time
  pub fetched_at : Time
  pub created_at : Time
  pub updated_at : Time

abbrev pub record_key : FileRecord → String
record_key r = r.file_id

abbrev pub RecordTable : Type 1
RecordTable = Table String FileRecord record_key str_eq

-- The columns that a conflict overwrites: all but the key and `created_at`.
unfoldable pub overwrite : FileRecord → FileRecord → FileRecord
overwrite rec old = record rec { file_id = old.file_id; created_at = old.created_at }

-- What SeenFileIDs returns: the ids that are in the map, or an error.
pub data Seen : Type 0 where
  seen : List String → Seen
  seen_failed : GoError → Seen

unfoldable pub chunk : ℕ
chunk = 500

module _ (db : RecordTable) where
  -- gorm sets both times of `rec` to the clock's reading.
  unfoldable pub upsert_file_record : FileRecord → Time → db.State → Write db.State
  unfolding overwrite
  upsert_file_record rec now s =
      let r = record rec { created_at = now; updated_at = now } in db.upsert r (overwrite r) s

  -- The ids of one chunk that have a row.
  unfoldable pub seen_chunk : List String → db.State → Answer FileRecord
  seen_chunk ids s = db.select_all (λ r. any (str_eq r.file_id) ids) s

  -- The loop over chunks of `rest`; the number of ids is fuel enough, as every chunk takes one.
  unfoldable pub seen_loop : ℕ → List String → List String → db.State → Seen
  seen_loop fuel acc [] s = seen acc
  seen_loop zero acc (id ∷ rest) s = seen acc
  seen_loop (suc fuel) acc (id ∷ rest) s = elim (seen_chunk (take chunk (id ∷ rest)) s) [
    | unread e ↦ seen_failed e
    | rows found' ↦ seen_loop fuel (acc ++ map record_key found') (drop chunk (id ∷ rest)) s
  ]

  unfoldable pub seen_file_ids : List String → db.State → Seen
  unfolding seen_loop
  seen_file_ids [] s = seen []
  seen_file_ids (id ∷ ids) s = seen_loop (length (id ∷ ids)) [] (id ∷ ids) s

  -- GetFileRecord.
  unfoldable pub get_file_record : String → db.State → Look FileRecord
  get_file_record file_id s = db.first file_id s
