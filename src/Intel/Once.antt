-- ===== src/Intel/Once.antt =====
-- internal/intel/intel.go and internal/db/intel_cache.go: a second lookup of a hash.
use mathlib.Core.Option
use s3nitor.Prelude.{
  ℕ, ◌≡◌, ◌≢◌, refl, inl, inr, String, str_eq, true, false, Option, none, some, List, take, arith,
}
use s3nitor.Prelude.Int.{pos, ◌+ℤ◌, ◌≤ℤ◌, ltb_ℤ, wrap64}
use s3nitor.Scanner.{Time, Result, GoError, ScanInput, hash_of}
use s3nitor.Table.{done, look_failed, or_insert}
use s3nitor.Ledger.Claims.{same_task_refl}
use s3nitor.Intel.{
  IntelCache, IntelTable, intel_key, Json, Lookup, response, body, parsed, State, store, put_intel,
  get_intel, cache_row, from_cache, overwrite_intel, is_exhausted, concluded, read_body, answered,
  asked, uncached, looked_up, intel_scan, max_body,
}
use s3nitor.Intel.Cache.{Look-cases}

module _ (db : IntelTable) (json : Json) (l : Lookup) where
  -- A row that agrees with a verdict, and is fresh at some time.
  abbrev Agrees : Result → Time → Option IntelCache → Type 0
  Agrees res now none = ⊥
  Agrees res now (some row) =
      (row.is_match ≡ res.is_match)
      × (row.severity ≡ res.severity)
      × (ltb_ℤ row.expires_at now ≡ false)

  written-Agrees :
      (row : IntelCache) (old : Option IntelCache) (res : Result) (now : Time)
      → (row.is_match ≡ res.is_match)
        × (row.severity ≡ res.severity)
        × (ltb_ℤ row.expires_at now ≡ false)
      → Agrees res now (some (or_insert (Option.map (overwrite_intel row) old) row))
  unfolding overwrite_intel
  written-Agrees row none res now h = h
  written-Agrees row (some old) res now h = h

  put-Agrees :
      (row : IntelCache) (res : Result) (now : Time) (s t : db.State) (n : ℕ)
      → (row.is_match ≡ res.is_match)
        × (row.severity ≡ res.severity)
        × (ltb_ℤ row.expires_at now ≡ false)
      → put_intel db json l row s ≡ done t n
      → Agrees res now (db.row_at t (intel_key row))
  unfolding put_intel
  put-Agrees row res now s t n h e =
      let at = db.upsert-row_at row (overwrite_intel row) s t n (intel_key row) e in
      rw (at, same_task_refl (intel_key row))
        (written-Agrees row (db.row_at s (intel_key row)) res now h)

  -- What is stored is found, where the database answers.
  get-Agrees :
      (res : Result) (provider sha : String) (now : Time) (s : db.State)
      → ((k : String × String) (x : db.State) (e : GoError) → db.first k x ≢ look_failed e)
      → Agrees res now (db.row_at s (provider, sha))
      → Agrees res now (get_intel db json l provider sha now s)
  unfolding get_intel
  get-Agrees res provider sha now s reads h = elim (Look-cases (db.first (provider, sha) s)) [
    | inr (inr (e, bad)) ↦ absurd (reads (provider, sha) s e bad)
    | inr (inl gone) ↦ absurd (rw (db.first_missing (provider, sha) s gone) at h)
    | inl (row, there) ↦
        let agreed = rw (db.first_found (provider, sha) s row there) at h in
        rw (there, get_intel, agreed.2) agreed
  ]

  -- The state after a lookup that the provider answered with a verdict, which was stored.
  stored :
      (i : ScanInput) (now later : Time) (s : State db json l) (b : List ℕ) (res : Result)
      (t : db.State) (n : ℕ)
      → str_eq (hash_of "sha256" i.hashes) "" ≡ false
      → get_intel db json l l.provider.name (hash_of "sha256" i.hashes) now s.cache ≡ none
      → is_exhausted db json l s ≡ false
      → l.provider.ask (hash_of "sha256" i.hashes) ≡ response 200 (body b)
      → l.provider.parse (take max_body b) ≡ parsed res
      → put_intel db json l (cache_row db json l (hash_of "sha256" i.hashes) res true later) s.cache
        ≡ done t n
      → (intel_scan db json l i now later s).1
        ≡ record { cache = t; spent = wrap64 (s.spent +ℤ pos 1) }
  unfolding intel_scan looked_up asked answered read_body concluded store
  stored i now later s b res t n named absent' room reply verdict written =
      rw (named, absent', room, uncached, reply, verdict, written) refl

  -- A row that agrees answers a scan by itself.
  from_row :
      (sha : String) (later : Time) (o : Option IntelCache) (s : State db json l) (res : Result)
      (now : Time)
      → Agrees res now o
      → let ((r, e), s') = looked_up db json l sha later o s in
        (e ≡ none) × (r.is_match ≡ res.is_match) × (r.severity ≡ res.severity) × (s' ≡ s)
  unfolding looked_up from_cache
  from_row sha later none s res now h = absurd h
  from_row sha later (some row) s res now (m, g, f) = (refl, m, g, refl)

  fresh_until :
      (later ttl again : Time) → again ≤ℤ later +ℤ ttl → ltb_ℤ (later +ℤ ttl) again ≡ false
  fresh_until later ttl again h = ground arith

  in_cache :
      (again later' : Time) (s : State db json l) (res : Result) (k : ScanInput)
      → ((k : String × String) (x : db.State) (e : GoError) → db.first k x ≢ look_failed e)
      → str_eq (hash_of "sha256" k.hashes) "" ≡ false
      → Agrees res again (db.row_at s.cache (l.provider.name, hash_of "sha256" k.hashes))
      → let ((r, e), s') = intel_scan db json l k again later' s in
        (e ≡ none) × (r.is_match ≡ res.is_match) × (r.severity ≡ res.severity) × (s' ≡ s)
  unfolding intel_scan
  in_cache again later' s res k reads named h = rw named (
      from_row (hash_of "sha256" k.hashes) later' _ s res again
        (get-Agrees res l.provider.name (hash_of "sha256" k.hashes) again s.cache reads h))

  -- After a lookup that the provider answered with a verdict, and whose verdict was stored, a scan of
  -- any object with the same SHA-256 before the verdict expires, where the database can be read, gives
  -- the same match and severity without an error and makes no request, whatever is left of the quota.
  pub second_lookup_is_free :
      (i j : ScanInput) (now later again later' : Time) (s : State db json l) (b : List ℕ)
      (res : Result) (t : db.State) (n : ℕ)
      → ((k : String × String) (x : db.State) (e : GoError) → db.first k x ≢ look_failed e)
      → str_eq (hash_of "sha256" i.hashes) "" ≡ false
      → hash_of "sha256" j.hashes ≡ hash_of "sha256" i.hashes
      → get_intel db json l l.provider.name (hash_of "sha256" i.hashes) now s.cache ≡ none
      → is_exhausted db json l s ≡ false
      → l.provider.ask (hash_of "sha256" i.hashes) ≡ response 200 (body b)
      → l.provider.parse (take max_body b) ≡ parsed res
      → put_intel db json l (cache_row db json l (hash_of "sha256" i.hashes) res true later) s.cache
        ≡ done t n
      → again ≤ℤ later +ℤ l.cache_ttl
      → let s' = (intel_scan db json l i now later s).1 in
        let ((r, e), s'') = intel_scan db json l j again later' s' in
        (e ≡ none) × (r.is_match ≡ res.is_match) × (r.severity ≡ res.severity) × (s'' ≡ s')
  unfolding cache_row
  second_lookup_is_free i j now later again later' s b res t n reads named same absent' room reply
        verdict written soon =
      let sha = hash_of "sha256" i.hashes in
      let agrees =
        put-Agrees (cache_row db json l sha res true later) res again s.cache t n
          (refl, refl, fresh_until later l.cache_ttl again soon) written in
      rw (stored i now later s b res t n named absent' room reply verdict written) (
        in_cache again later' (record { cache = t; spent = wrap64 (s.spent +ℤ pos 1) }) res j reads
          (rw same named) (rw same agrees))
