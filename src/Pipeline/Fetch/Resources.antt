-- ===== src/Pipeline/Fetch/Resources.antt =====
-- fetchOne and runFetch: what a download takes, and what it gives back.
use s3nitor.Prelude.{
  ℕ, zero, suc, ◌≡◌, false, String, str_eq, if◌then◌else◌, Option, none, some, List, [], ◌∷◌,
  length,
}
use s3nitor.Pipeline.Payload.{Payload}
use s3nitor.Hashing.{Digest}
use s3nitor.Pipeline.Fetch.{
  Effect, take_bytes, give_bytes, take_conn, give_conn, open_body, close_body, create_file,
  remove_file, Fetched, fetched, fetch_failed, Log,
}

-- How many byte reservations, connection slots and response bodies are held, and the paths of the
-- files that were created and not removed, the latest first.
pub data Held : Type 0 where
  held : ℕ → ℕ → ℕ → List String → Held

-- The account of one effect. What is not held cannot be given back, a connection slot not while a
-- response body is open, and only the file that was created last can be removed.
abbrev account : Effect → Held → Option Held
account (take_bytes n) (held b c o fs) = some (held (suc b) c o fs)
account take_conn (held b c o fs) = some (held b (suc c) o fs)
account open_body (held b c o fs) = some (held b c (suc o) fs)
account (create_file p) (held b c o fs) = some (held b c o (p ∷ fs))
account give_bytes (held (suc b) c o fs) = some (held b c o fs)
account give_conn (held b (suc c) zero fs) = some (held b c 0 fs)
account close_body (held b c (suc o) fs) = some (held b c o fs)
account (remove_file p) (held b c o (q ∷ fs)) = if str_eq p q then some (held b c o fs) else none
account e h = none

abbrev pub settle_all : List Effect → Option Held → Option Held
settle_all es none = none
settle_all [] (some h) = some h
settle_all (e ∷ es) (some h) = settle_all es (account e h)

-- The files of some payloads, the latest first, before other files.
abbrev pub files_of : List Payload → List String → List String
files_of [] fs = fs
files_of (p ∷ ps) fs = files_of ps (p.input.local_path ∷ fs)

-- A payload holds its bytes and its own file, and has freed neither.
abbrev Settles : ℕ → List String → Held → List Effect × Fetched → Type 0
Settles n fs start (es, fetched p) =
    (settle_all es (some start) ≡ some (held (suc n) 0 0 (p.input.local_path ∷ fs)))
    × (p.is_freed ≡ false)
    × (str_eq p.input.local_path "" ≡ false)
Settles n fs start (es, fetch_failed e) = settle_all es (some start) ≡ some (held n 0 0 fs)

-- Exactly what the payloads that were sent hold is held.
abbrev IsAccounted :
    (d : Digest) (join : String → String → String) (work_dir : String)
    → Log d join work_dir
    → Type 0
IsAccounted d join work_dir w =
    settle_all w.effects (some (held 0 0 0 []))
    ≡ some (held (length w.sent) 0 0 (files_of w.sent []))
