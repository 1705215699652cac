-- ===== src/Reporters/Elasticsearch/Served.antt =====
-- elasticsearch.go: what Elasticsearch documents of its index and bulk requests, and the requests and
-- the accepted answers of the reporter in those terms.
use s3nitor.Prelude.{
  ℕ, String, str_append, str_eq, ◌≡◌, refl, inl, inr, Bool-cases, false, Option, none, some,
  Option-cases, List, [], ◌∷◌, leb, arith, if◌then◌else◌,
}
use s3nitor.Scanner.{Finding}
use s3nitor.Fallible.{Try, ok, err, Try-cases}
use s3nitor.Intel.{Body}
use s3nitor.Reporters.{Authorization, Request, Reply, no_answer, answer, Texts}
use s3nitor.Reporters.Elasticsearch.{
  ElasticsearchReporter, BulkResult, first_error, verdict_of, read_put, encode_batch, read_bulk,
}

-- Documents to write, each under its id.
abbrev pub Documents : Type 0
Documents = List (String × String)

-- What stands under an id after such writes: the last of that id, or what stood there before.
abbrev pub written : Documents → String → Option String → Option String
written [] id d = d
written ((j, json) ∷ ops) id d = written ops id (if str_eq j id then some json else d)

module _ (texts : Texts) (decoded : Body → Try BulkResult) (r : ElasticsearchReporter) where
  -- The documents of some findings, if each of them can be encoded.
  abbrev pub documents_of : List Finding → Try Documents
  documents_of [] = ok []
  documents_of (f ∷ fs) = elim (texts.marshal f) [
    | err e ↦ err e
    | ok json ↦ elim (documents_of fs) [
      | err e ↦ err e
      | ok ops ↦ ok ((texts.doc_id f, json) ∷ ops)
    ]
  ]

  -- The two requests as Elasticsearch documents them.
  abbrev pub index_request : Authorization → String → String → Request
  index_request auth id json = record {
    method = "PUT";
    url = str_append r.url (str_append "/" (str_append r.index (str_append "/_doc/" id)));
    content_type = "application/json";
    authorization = auth;
    lines = json ∷ [];
  }

  abbrev pub bulk_lines : Documents → List String
  bulk_lines [] = []
  bulk_lines ((id, json) ∷ ops) = texts.meta r.index id ∷ json ∷ bulk_lines ops

  abbrev pub index_all_request : Authorization → Documents → Request
  index_all_request auth ops = record {
    method = "POST";
    url = str_append r.url "/_bulk";
    content_type = "application/x-ndjson";
    authorization = auth;
    lines = bulk_lines ops;
  }

  pub encode-documents :
      (fs : List Finding) (lines : List String)
      → encode_batch texts decoded r fs ≡ ok lines
      → (ops : Documents) × (documents_of fs ≡ ok ops) × (lines ≡ bulk_lines ops)
  unfolding encode_batch
  encode-documents [] lines e = ([], refl, ground arith)
  encode-documents (f ∷ fs) lines e = elim (Try-cases (texts.marshal f)) [
    | inr (bad, p) ↦ absurd (ground (arith, rw (p, encode_batch) at e))
    | inl (json, p) ↦ elim (Try-cases (encode_batch texts decoded r fs)) [
      | inr (bad, q) ↦ absurd (ground (arith, rw (p, encode_batch, q) at e))
      | inl (rest, q) ↦
          let (ops, d, l) = encode-documents fs rest q in
          let same = rw (p, encode_batch, q) at e in
          ((texts.doc_id f, json) ∷ ops, rw (p, documents_of, d) refl, ground (arith, same, l))
    ]
  ]

  -- An answer that ReportBatch takes for success.
  pub record Taken (reply : Reply) : Type 0 where
    pub code : ℕ
    pub status : String
    pub contents : Body
    pub result : BulkResult
    pub same : reply ≡ answer code status contents
    pub accepted : leb 300 code ≡ false
    pub readable : decoded contents ≡ ok result
    pub clean : verdict_of result ≡ none

  pub read_bulk-Taken : (reply : Reply) → read_bulk texts decoded r reply ≡ none → Taken reply
  unfolding read_bulk
  read_bulk-Taken (no_answer e) h = absurd (ground arith)
  read_bulk-Taken (answer code status b) h = elim (Bool-cases (leb 300 code)) [
    | inl refused ↦ absurd (ground (arith, rw (refused, read_bulk) at h))
    | inr accepted ↦ elim (Try-cases (decoded b)) [
      | inr (e, p) ↦ absurd (ground (arith, rw (accepted, read_bulk, p) at h))
      | inl (result, p) ↦ record {
        code = code;
        status = status;
        contents = b;
        result = result;
        same = refl;
        accepted = accepted;
        readable = p;
        clean = rw (accepted, read_bulk, p) at h;
      }
    ]
  ]

  -- What Elasticsearch documents of a server: `docs s id` is the document under an id of the index.
  pub record IsElasticsearch {S : Type 0} (serve : Request → S → Reply × S)
      (docs : S → String → Option String) : Type 0 where
    pub indexes :
        (auth : Authorization) (id json : String) (s s' : S) (code : ℕ) (status : String) (b : Body)
        → serve (index_request auth id json) s ≡ (answer code status b, s')
        → leb 300 code ≡ false
        → (k : String) → docs s' k ≡ written ((id, json) ∷ []) k (docs s k)
    pub tells_errors :
        (auth : Authorization) (ops : Documents) (s s' : S) (code : ℕ) (status : String) (b : Body)
        (result : BulkResult)
        → serve (index_all_request auth ops) s ≡ (answer code status b, s')
        → decoded b ≡ ok result
        → result.errors ≡ false
        → first_error result.items ≡ none
    pub indexes_all :
        (auth : Authorization) (ops : Documents) (s s' : S) (code : ℕ) (status : String) (b : Body)
        (result : BulkResult)
        → serve (index_all_request auth ops) s ≡ (answer code status b, s')
        → leb 300 code ≡ false
        → decoded b ≡ ok result
        → first_error result.items ≡ none
        → (k : String) → docs s' k ≡ written ops k (docs s k)

  pub read_put-accepted :
      (reply : Reply)
      → read_put texts decoded r reply ≡ none
      → (code : ℕ) × (status : String) × (b : Body) × (reply ≡ answer code status b)
        × (leb 300 code ≡ false)
  unfolding read_put
  read_put-accepted (no_answer e) h = absurd (ground arith)
  read_put-accepted (answer code status b) h = elim (Bool-cases (leb 300 code)) [
    | inl refused ↦ absurd (ground (arith, rw (refused, read_put) at h))
    | inr accepted ↦ (code, status, b, refl, accepted)
  ]

  pub verdict-none :
      (result : BulkResult)
      → verdict_of result ≡ none
      → (result.errors ≡ false → first_error result.items ≡ none)
      → first_error result.items ≡ none
  unfolding verdict_of
  verdict-none result h tells = elim (Bool-cases result.errors) [
    | inr clean ↦ tells clean
    | inl flagged ↦ elim (Option-cases (first_error result.items)) [
      | inl e ↦ e
      | inr (x, e) ↦ absurd (ground (arith, rw (flagged, verdict_of, e) at h))
    ]
  ]
