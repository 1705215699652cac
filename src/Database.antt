-- ===== src/Database.antt =====
-- internal/db/db.go: the driver and the size of the pool that NewDB chooses, and the DSN of SQLite. A
-- query is the list of its parameters; url.ParseQuery and Encode are the parameters of `sqlite_dsn`.
pub mod Pragmas
use s3nitor.Prelude.{
  ℕ, String, str_append, str_eq, Bool, Option, some, none, ◌||◌, List, [], ◌∷◌, ◌==◌, if◌then◌else◌,
}
use s3nitor.Scanner.{failure}
use s3nitor.Fallible.{Try, ok, err}
use s3nitor.Config.{Config}
use Prim.Native.Char.{code}

abbrev pub Params : Type 0
Params = List (String × String)

-- `params.Get`, of the first value of a key.
unfoldable pub get : String → Params → String
get key [] = ""
get key ((k, v) ∷ rest) = let other = get key rest in if str_eq key k then v else other

unfoldable pub without : String → Params → Params
without key [] = []
without key ((k, v) ∷ rest) =
    let others = without key rest in if str_eq key k then others else (k, v) ∷ others

-- `params.Set`, which replaces all values of the key.
unfoldable pub set : String → String → Params → Params
unfolding without
set key v params = (key, v) ∷ without key params

-- The loop over the pragmas, in the order in which Go ranges over their map.
unfoldable pub add_pragmas : List (String × String) → Params → Params
unfolding get set
add_pragmas [] params = params
add_pragmas ((key, v) ∷ rest) params =
    add_pragmas rest (if str_eq (get key params) "" then set key v params else params)

unfoldable pub pragmas : Bool → List (String × String)
pragmas swapped =
    if swapped
    then ("_busy_timeout", "5000") ∷ ("_journal_mode", "WAL") ∷ []
    else ("_journal_mode", "WAL") ∷ ("_busy_timeout", "5000") ∷ []

-- `strings.Cut(dsn, "?")`.
unfoldable cut : String → String × String
cut String.[] = ("", "")
cut (String.◌∷◌ c s) =
    let (base, query) = cut s in if code c == b'?' then ("", s) else (String.◌∷◌ c base, query)

unfoldable sqlite_dsn : (String → Option Params) → (Params → String) → Bool → String → String
unfolding cut add_pragmas pragmas
sqlite_dsn parse encode swapped given =
    let dsn = if str_eq given "" then "./s3scanner.db" else given in
    let (base, query) = cut dsn in
    elim (parse query) [
      | none ↦ dsn
      | some params ↦
          str_append base (str_append "?" (encode (add_pragmas (pragmas swapped) params)))
    ]

-- The driver with its DSN, and the most connections that are open and idle.
record Pool : Type 0 where
  driver : String
  dsn : String
  max_open : ℕ
  max_idle : ℕ

unfoldable new_db : (String → String) → Config → Try Pool
new_db with_pragmas cfg =
    if str_eq cfg.db_driver "sqlite3"
    then ok
        (record { driver = "sqlite3"; dsn = with_pragmas cfg.db_dsn; max_open = 4; max_idle = 4 })
    else (if str_eq cfg.db_driver "mysql" || str_eq cfg.db_driver "postgres"
        then ok (record { driver = cfg.db_driver; dsn = cfg.db_dsn; max_open = 25; max_idle = 5 })
        else err (failure (str_append "unsupported DB_DRIVER: " cfg.db_driver)))
