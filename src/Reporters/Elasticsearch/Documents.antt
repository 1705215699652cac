-- ===== src/Reporters/Elasticsearch/Documents.antt =====
-- elasticsearch.go: the documents of the index after Report and ReportBatch, under what Elasticsearch
-- documents of its index and bulk requests.
use s3nitor.Prelude.{
  ℕ, String, ◌≡◌, refl, sym, ap, ◌∙◌, ◌⊎◌, inl, inr, Option, none, Option-cases, subst, List, [],
  ◌∷◌, arith,
}
use s3nitor.Scanner.{Finding, Time}
use s3nitor.Fallible.{Try, ok, Try-cases}
use s3nitor.Intel.{Body}
use s3nitor.Ledger.{TaskTable}
use s3nitor.Records.{RecordTable}
use s3nitor.Pipeline.Flush.{Store, send_each, send, flush}
use s3nitor.Reporters.{Request, Reply, Texts}
use s3nitor.Reporters.Elasticsearch.{
  ElasticsearchReporter, BulkResult, put_request, read_put, encode_batch, bulk_request, read_bulk,
  report, report_batch, elasticsearch, authorize,
}
use s3nitor.Reporters.Elasticsearch.Served.{
  Documents, written, documents_of, index_request, index_all_request, encode-documents,
  read_bulk-Taken, IsElasticsearch, read_put-accepted, verdict-none,
}

module _ (texts : Texts) (decoded : Body → Try BulkResult) (r : ElasticsearchReporter) where
  module _ {S : Type 0} (serve : Request → S → Reply × S) (docs : S → String → Option String)
      (server : IsElasticsearch texts decoded r serve docs) where
    -- After some findings were taken: all can be encoded, and the index holds the last document of
    -- each id and what it held before under all others.
    abbrev pub Indexed : List Finding → S → S → Type 0
    Indexed fs s s' =
        (ops : Documents) × (documents_of texts decoded r fs ≡ ok ops)
        × ((k : String) → docs s' k ≡ written ops k (docs s k))

    taken-written :
        (ops : Documents) (s : S)
        → let (reply, s') = serve (index_all_request texts decoded r (authorize r) ops) s in
          read_bulk texts decoded r reply ≡ none
          → (k : String) → docs s' k ≡ written ops k (docs s k)
    taken-written ops s h =
        let request = index_all_request texts decoded r (authorize r) ops in
        let s' = (serve request s).1 in
        let t = read_bulk-Taken texts decoded r (serve request s).0 h in
        let served = ap (λ (x : Reply). (x, s')) t.same in
        let tells =
          server.tells_errors (authorize r) ops s s' t.code t.status t.contents t.result served
            t.readable in
        server.indexes_all (authorize r) ops s s' t.code t.status t.contents t.result served
          t.accepted t.readable (verdict-none texts decoded r t.result t.clean tells)

    bulk-Indexed :
        (fs : List Finding) (lines : List String) (s : S)
        → encode_batch texts decoded r fs ≡ ok lines
        → read_bulk texts decoded r (serve (bulk_request texts decoded r lines) s).0 ≡ none
        → Indexed fs s (serve (bulk_request texts decoded r lines) s).1
    unfolding bulk_request
    bulk-Indexed fs lines s e h =
        let (ops, d, l) = encode-documents texts decoded r fs lines e in
        (
          ops,
          d,
          subst
              (λ ls.
                (let (reply, s') = serve (bulk_request texts decoded r ls) s in
                  read_bulk texts decoded r reply ≡ none
                  → (k : String) → docs s' k ≡ written ops k (docs s k)))
              (sym l) (taken-written ops s) h,
        )

    -- A batch that ReportBatch takes without an error is indexed.
    report_batch-Indexed :
        (fs : List Finding) (s s' : S)
        → report_batch texts decoded r serve fs s ≡ (none, s')
        → Indexed fs s s'
    unfolding report_batch
    report_batch-Indexed [] s s' e = ([], refl, λ k. ap (λ x. docs x k) (sym (ap (λ p. p.1) e)))
    report_batch-Indexed (f ∷ fs) s s' e =
        elim (Try-cases (encode_batch texts decoded r (f ∷ fs))) [
          | inr (bad, p) ↦ absurd (ground (arith, rw (p, report_batch) at e))
          | inl (lines, p) ↦
              let q = rw (p, report_batch) at e in
              subst (Indexed (f ∷ fs) s) (ap (λ x. x.1) q)
                (bulk-Indexed (f ∷ fs) lines s p (ap (λ x. x.0) q))
        ]

    report-written :
        (f : Finding) (json : String) (s : S)
        → let (reply, s') = serve (put_request texts decoded r f json) s in
          read_put texts decoded r reply ≡ none
          → (k : String) → docs s' k ≡ written ((texts.doc_id f, json) ∷ []) k (docs s k)
    unfolding put_request
    report-written f json s h =
        let (reply, s') =
          serve (index_request texts decoded r (authorize r) (texts.doc_id f) json) s in
        let (code, status, b, same, accepted) = read_put-accepted texts decoded r reply h in
        server.indexes (authorize r) (texts.doc_id f) json s s' code status b
          (ap (λ (x : Reply). (x, s')) same) accepted

    report-Indexed :
        (f : Finding) (s : S)
        → (report texts decoded r serve f s).0 ≡ none
        → (json : String) × (texts.marshal f ≡ ok json)
          × ((k : String)
              → docs (report texts decoded r serve f s).1 k
                ≡ written ((texts.doc_id f, json) ∷ []) k (docs s k))
    unfolding report
    report-Indexed f s h = elim (Try-cases (texts.marshal f)) [
      | inr (e, p) ↦ absurd (ground (arith, rw (p, report) at h))
      | inl (json, p) ↦ (json, p, rw (p, report) (report-written f json s (rw (p, report) at h)))
    ]

    -- Findings that Report takes one by one are indexed.
    send_each-Indexed :
        (fs : List Finding) (s : S)
        → (send_each (report texts decoded r serve) fs s).0 ≡ none
        → Indexed fs s (send_each (report texts decoded r serve) fs s).1
    unfolding send_each
    send_each-Indexed [] s h = ([], refl, λ k. refl)
    send_each-Indexed (f ∷ fs) s h = elim (Option-cases (report texts decoded r serve f s).0) [
      | inr (e, refused) ↦ absurd (ground (arith, rw (refused, send_each) at h))
      | inl taken ↦
          let (json, p, one) = report-Indexed f s taken in
          let s' = (report texts decoded r serve f s).1 in
          let (ops, d, rest) = send_each-Indexed fs s' (rw (taken, send_each) at h) in
          (
            (texts.doc_id f, json) ∷ ops,
            rw (p, documents_of, d) refl,
            rw (taken, send_each) (λ k. rest k ∙ ap (written ops k) (one k)),
          )
    ]

    -- If the bulk request of a batch is taken without an error, and so are its findings when they are
    -- reported one by one, the index holds the same documents after the one as after the other.
    pub bulk_is_report_each :
        (fs : List Finding) (s s' : S)
        → report_batch texts decoded r serve fs s ≡ (none, s')
        → (send_each (report texts decoded r serve) fs s).0 ≡ none
        → (k : String) → docs s' k ≡ docs (send_each (report texts decoded r serve) fs s).1 k
    bulk_is_report_each fs s s' e h k =
        let (ops, d, all) = report_batch-Indexed fs s s' e in
        let (ops', d', each) = send_each-Indexed fs s h in
        let same : ops ≡ ops' = ground (arith, d, d') in
        all k ∙ ap (λ x. written x k (docs s k)) same ∙ sym (each k)

    -- A flush to Elasticsearch leaves the file records and the ledger as they were, or every finding
    -- of the batch can be encoded and the index holds the last one of each document id, and under all
    -- other ids what it held before.
    pub recorded_is_Indexed :
        (files : RecordTable) (tasks : TaskTable) (clock : ℕ → Time) (batch : List Finding)
        (store : Store files tasks) (s : S)
        → let (store', s') =
            flush files tasks (elasticsearch texts decoded r serve) clock batch store s in
          (store' ≡ store) ⊎ Indexed batch s s'
    unfolding flush send elasticsearch
    recorded_is_Indexed files tasks clock batch store s =
        elim (Option-cases (report_batch texts decoded r serve batch s).0) [
          | inr (e, refused) ↦ rw (refused, flush) (inl refl)
          | inl taken ↦
              rw (taken, flush)
                (inr (
                  report_batch-Indexed batch s (report_batch texts decoded r serve batch s).1
                    (ap (λ x. (x, (report_batch texts decoded r serve batch s).1)) taken)))
        ]
