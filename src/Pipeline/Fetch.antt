-- ===== src/Pipeline/Fetch.antt =====
-- internal/pipeline/pipeline.go, the fetch stage (fetchOne and runFetch). What the limiters, the
-- object store and the disk answer is an argument, and what the code does to them is a list of
-- effects in their order.
pub mod Resources
use s3nitor.Prelude.{
  ℕ, zero, suc, ◌-◌, String, str_append, str_eq, Bool, true, false, Option, none, some, List, [],
  ◌∷◌, ◌++◌, if◌then◌else◌,
}
use s3nitor.Prelude.Int.{ℤ, pos}
use s3nitor.Scanner.{GoError, ScanInput}
use s3nitor.Hashing.{Digest, new, write_all, sum, size}
use s3nitor.Pipeline.Discover.{Job}
use s3nitor.Pipeline.Payload.{Payload, free}

-- One effect: a reservation of bytes, a connection slot, a response body or a file is taken, or is
-- given back.
pub data Effect : Type 0 where
  take_bytes : ℤ → Effect
  give_bytes take_conn give_conn open_body close_body : Effect
  create_file remove_file : String → Effect

-- The calls that a payload counts, as effects: those that `q` has and `p` had not yet.
repeated : ℕ → Effect → List Effect
repeated zero e = []
repeated (suc n) e = e ∷ repeated n e

unfoldable pub calls_between : Payload → Payload → List Effect
unfolding repeated
calls_between p q =
    repeated (q.removals - p.removals) (remove_file p.input.local_path)
    ++ repeated (q.releases - p.releases) give_bytes

-- The answers that a download meets. `body` is what the copy reads, up to its error.
pub record Answers : Type 0 where
  pub bytes : Option GoError
  pub conn : Option GoError
  pub opened : Option GoError
  pub create : Option GoError
  pub body : List (List ℕ)
  pub copy : Option GoError
  pub close : Option GoError

pub data Fetched : Type 0 where
  fetched : Payload → Fetched
  fetch_failed : GoError → Fetched

unfoldable pub end_transfer : Bool → List Effect
end_transfer is_open = if is_open then close_body ∷ give_conn ∷ [] else give_conn ∷ []

-- `fail` of fetchOne; whether `body` was set.
unfoldable pub fail : Bool → GoError → List Effect × Fetched
unfolding end_transfer
fail is_open e = (end_transfer is_open ++ give_bytes ∷ [], fetch_failed e)

-- The copy's error, or else that of closing the file.
unfoldable pub copy_error : Option GoError → Option GoError → Option GoError
copy_error none close = close
copy_error (some e) close = some e

unfoldable pub then_do : List Effect → List Effect × Fetched → List Effect × Fetched
then_do es (fs, r) = (es ++ fs, r)

module _ (d : Digest) (join : String → String → String) (work_dir : String) where
  unfoldable payload_of : Job → String → List (List ℕ) → Payload
  unfolding write_all
  payload_of j local_path body =
      let h = write_all new body in
      record {
        input = record {
          file_id = j.file_id;
          bucket = j.ref.bucket;
          key = j.ref.key;
          version = j.ref.version;
          size = size h;
          hashes = sum d h;
          local_path = local_path;
        };
        refs = pos 0;
        is_freed = false;
        removals = 0;
        releases = 0;
      }

  copied : Job → String → Answers → List Effect × Fetched
  unfolding copy_error fail payload_of end_transfer
  copied j path a = elim (copy_error a.copy a.close) [
    | some e ↦ then_do (remove_file path ∷ []) (fail true e)
    | none ↦ (end_transfer true, fetched (payload_of j path a.body))
  ]

  created : Job → Answers → List Effect × Fetched
  unfolding copied then_do
  created j a = elim a.create [
    | some e ↦ fail true e
    | none ↦
        then_do (create_file (join work_dir j.file_id) ∷ []) (copied j (join work_dir j.file_id) a)
  ]

  download : Job → Answers → List Effect × Fetched
  unfolding created
  download j a = elim a.opened [
    | some e ↦ fail false e
    | none ↦ then_do (open_body ∷ []) (created j a)
  ]

  connected : Job → Answers → List Effect × Fetched
  unfolding download
  connected j a = elim a.conn [
    | some e ↦ (give_bytes ∷ [], fetch_failed e)
    | none ↦ then_do (take_conn ∷ []) (download j a)
  ]

  unfoldable pub fetch_one : Job → Answers → List Effect × Fetched
  unfolding connected
  fetch_one j a = elim a.bytes [
    | some e ↦ ([], fetch_failed e)
    | none ↦ then_do (take_bytes j.ref.size ∷ []) (connected j a)
  ]

  -- What one fetcher did: its effects, the payloads that it sent or freed, and its failures.
  pub record Log : Type 0 where
    pub effects : List Effect
    pub sent : List Payload
    pub freed : List Payload
    pub failed : ℕ

  -- One turn of the loop: whether the context has ended before it, the answers to the download, and
  -- whether the payload is sent before the context ends.
  pub record Turn : Type 0 where
    pub job : Job
    pub is_cancelled : Bool
    pub answers : Answers
    pub is_sent : Bool

  -- The log after a turn, and whether the loop goes on.
  after_fetch : Bool → List Effect → Fetched → Log → Bool × Log
  unfolding free calls_between
  after_fetch is_sent es (fetch_failed e) w =
      (true, record w { effects = w.effects ++ es; failed = suc w.failed })
  after_fetch true es (fetched p) w =
      (true, record w { effects = w.effects ++ es; sent = w.sent ++ p ∷ [] })
  after_fetch false es (fetched p) w = (
    false,
    record w {
      effects = w.effects ++ es ++ calls_between p (free p);
      freed = w.freed ++ free p ∷ [];
    },
  )

  unfoldable pub run_fetch : List Turn → Log → Log
  unfolding after_fetch fetch_one
  run_fetch [] w = w
  run_fetch (t ∷ ts) w = elim t.is_cancelled [
    | true ↦ w
    | false ↦
        let (es, r) = fetch_one t.job t.answers in
        let (goes_on, w') = after_fetch t.is_sent es r w in
        elim goes_on [ true ↦ run_fetch ts w' | false ↦ w' ]
  ]
