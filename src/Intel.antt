-- ===== src/Intel.antt =====
-- internal/intel/intel.go and internal/db/intel_cache.go: lookups of a hash at a third party, with
-- the cache of its verdicts. The provider's answers, JSON and the texts of fmt are parameters.
pub mod Cache
pub mod Once
pub mod Providers
use s3nitor.Prelude.{
  ℕ, ◌*◌, ◌^◌, ◌≤◌, String, str_append, str_eq, Bool, true, false, not, ◌&&◌, ◌||◌, Option, none,
  some, List, [], ◌∷◌, take, ◌==◌, if◌then◌else◌,
}
use s3nitor.Prelude.Int.{ℤ, pos, ◌+ℤ◌, ltb_ℤ, leb_ℤ, wrap64}
use s3nitor.Scanner.{
  Time, Duration, Result, empty_result, Detail, Value, bool, GoError, failure, wrapped, ScanInput,
  hash_of, severity_info,
}
use s3nitor.Table.{Table, Write, Look, found, missing, look_failed}
use s3nitor.Ledger.{same_task}
use s3nitor.Async.Worker.{settle}

pub record IntelCache : Type 0 where
  pub provider : String
  pub sha256 : String
  pub known : Bool
  pub is_match : Bool
  pub severity : String
  pub detail : String
  pub fetched_at : Time
  pub expires_at : Time

abbrev pub intel_key : IntelCache → String × String
intel_key r = (r.provider, r.sha256)

abbrev pub IntelTable : Type 1
IntelTable = Table (String × String) IntelCache intel_key same_task

-- What the provider's endpoint answers to one request.
pub data Body : Type 0 where
  body : List ℕ → Body
  unreadable : GoError → Body

pub data Reply : Type 0 where
  no_request : GoError → Reply
  no_response : GoError → Reply
  response : ℕ → Body → Reply

pub data Parsed : Type 0 where
  parsed : Result → Parsed
  unparsable : GoError → Parsed

pub record Provider : Type 0 where
  pub name : String
  pub ask : String → Reply
  pub parse : List ℕ → Parsed

-- `none` where json.Marshal or json.Unmarshal fails.
pub record Json : Type 0 where
  pub marshal : Detail → Option String
  pub unmarshal : String → Option Detail

pub record Lookup : Type 0 where
  pub provider : Provider
  pub cache_ttl : Duration
  pub daily_quota : ℤ
  pub printed : ℤ → String

-- `m[k] = v`.
unfoldable pub set_detail : String → Value → Detail → Detail
set_detail k v [] = (k, v) ∷ []
set_detail k v ((j, u) ∷ m) =
    let rest = set_detail k v m in if str_eq j k then (k, v) ∷ m else (j, u) ∷ rest

unfoldable detail_or_empty : Option Detail → Detail
detail_or_empty none = []
detail_or_empty (some d) = d

unfoldable text_or_empty : Option String → String
text_or_empty none = "{}"
text_or_empty (some s) = s

unfoldable pub from_cache : Json → IntelCache → Result
unfolding set_detail detail_or_empty
from_cache json row = record {
  is_match = row.is_match;
  severity = row.severity;
  detail = set_detail "cached" (bool true) (detail_or_empty (json.unmarshal row.detail));
}

unfoldable pub max_body : ℕ
max_body = 4 * 2 ^ 20

-- The columns that a conflict overwrites are all but the key.
unfoldable pub overwrite_intel : IntelCache → IntelCache → IntelCache
overwrite_intel new old = record new { provider = old.provider; sha256 = old.sha256 }

-- The answer about a hash that the provider has never seen.
unfoldable pub unknown : Result
unknown = record { is_match = false; severity = severity_info; detail = ("known", bool false) ∷ [] }

module _ (db : IntelTable) (json : Json) (l : Lookup) where
  unfoldable pub get_intel : String → String → Time → db.State → Option IntelCache
  get_intel provider sha256 now s = elim (db.first (provider, sha256) s) [
    | found row ↦ if ltb_ℤ row.expires_at now then none else some row
    | missing ↦ none
    | look_failed e ↦ none
  ]

  unfoldable pub put_intel : IntelCache → db.State → Write db.State
  unfolding overwrite_intel
  put_intel row s = db.upsert row (overwrite_intel row) s

  pub record State : Type 0 where
    pub cache : db.State
    pub spent : ℤ

  unfoldable pub cache_row : String → Result → Bool → Time → IntelCache
  unfolding text_or_empty
  cache_row sha res known now = record {
    provider = l.provider.name;
    sha256 = sha;
    known = known;
    is_match = res.is_match;
    severity = res.severity;
    detail = text_or_empty (json.marshal res.detail);
    fetched_at = now;
    expires_at = now +ℤ l.cache_ttl;
  }

  unfoldable pub store : String → Result → Bool → Time → State → State
  unfolding put_intel cache_row
  store sha res known now s = record s {
    cache = settle (put_intel (cache_row sha res known now) s.cache) s.cache;
  }

  problem : String → GoError
  problem text = failure (str_append l.provider.name text)

  concluded : String → Time → Parsed → State → (Result × Option GoError) × State
  unfolding store
  concluded sha now (unparsable e) s = ((empty_result, some e), s)
  concluded sha now (parsed res) s = ((res, none), store sha res true now s)

  read_body : String → Time → Body → State → (Result × Option GoError) × State
  unfolding concluded max_body
  read_body sha now (unreadable e) s = ((empty_result, some e), s)
  read_body sha now (body b) s = concluded sha now (l.provider.parse (take max_body b)) s

  answered : String → Time → ℕ → Body → State → (Result × Option GoError) × State
  unfolding read_body unknown problem store
  answered sha now status b s =
      if status == 404
      then ((unknown, none), store sha unknown false now s)
      else (if status == 429
          then ((empty_result, some (problem ": rate limited")), s)
          else (if status == 200 then read_body sha now b s else (
            (empty_result, some (problem (str_append ": status " (l.printed (pos status))))),
            s,
          )))

  asked : String → Time → Reply → State → (Result × Option GoError) × State
  unfolding answered
  asked sha now (no_request e) s = ((empty_result, some e), s)
  asked sha now (no_response e) s =
      ((empty_result, some (wrapped (str_append l.provider.name ": ") e)), s)
  asked sha now (response status b) s =
      answered sha now status b (record s { spent = wrap64 (s.spent +ℤ pos 1) })

  unfoldable pub is_exhausted : State → Bool
  is_exhausted s = ltb_ℤ (pos 0) l.daily_quota && leb_ℤ l.daily_quota s.spent

  uncached : String → Time → State → (Result × Option GoError) × State
  unfolding asked is_exhausted problem
  uncached sha now s =
      if is_exhausted s
      then (
        (
          empty_result,
          some (
              problem (
                str_append ": daily quota of "
                  (str_append (l.printed l.daily_quota) " exhausted"))),
        ),
        s,
      )
      else asked sha now (l.provider.ask sha) s

  looked_up : String → Time → Option IntelCache → State → (Result × Option GoError) × State
  unfolding uncached from_cache
  looked_up sha now (some row) s = ((from_cache json row, none), s)
  looked_up sha now none s = uncached sha now s

  -- One scan, with no other between its steps: the code does not guard the count, which a lane with
  -- several workers shares. The cache is read at `now`, and a verdict is stored at `later`.
  unfoldable pub intel_scan : ScanInput → Time → Time → State → (Result × Option GoError) × State
  unfolding looked_up get_intel
  intel_scan i now later s =
      let sha = hash_of "sha256" i.hashes in
      if str_eq sha ""
      then ((empty_result, some (problem ": no sha256 in ScanInput")), s)
      else looked_up sha later (get_intel l.provider.name sha now s.cache) s
