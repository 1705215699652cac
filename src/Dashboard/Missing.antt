-- ===== src/Dashboard/Missing.antt =====
-- internal/dashboard: the views while the index of the findings does not exist yet.
use s3nitor.Prelude.{String, ◌≡◌, refl, Bool, []}
use s3nitor.Prelude.Int.{pos}
use s3nitor.Fallible.{ok}
use s3nitor.Intel.{Body}
use s3nitor.Reporters.{Request, answer}
use s3nitor.Dashboard.Json.{Json, end}
use s3nitor.Dashboard.Client.{Cluster, Es, search_index, read_answer}
use s3nitor.Dashboard.Api.{
  Summary, Page, summary_of, summarise, findings, trends, coverage, hits_of,
}
use s3nitor.Dashboard.Server.{
  served, respond, Params, handle_summary, handle_findings, handle_trends, handle_coverage,
}

abbrev pub no_scans : Summary
no_scans = record {
  objects = pos 0;
  findings = pos 0;
  matches = pos 0;
  errors = pos 0;
  gaps = pos 0;
  by_severity = [];
  by_scanner = [];
  last_scan = "";
}

abbrev pub empty_page : Page
empty_page = record { total = pos 0; items = [] }

module _ (c : Cluster) (e : Es) (encodes : (x : Json) → (s : String) × (c.marshal x ≡ ok s)) where
  missing_lem :
      (status : String) (b : Body)
      → ((r : Request) → c.serve r ≡ answer 404 status b)
      → (x : Json) → search_index c e x ≡ ok end
  unfolding search_index read_answer
  missing_lem status b gone x = let (s, h) = encodes x in rw (h, search_index, gone) refl

  -- Where every request can be encoded: while the cluster answers each with 404, every view is served, and shows nothing.
  pub missing_index_is_empty :
      (swapped : Bool) (get : Params) (status : String) (b : Body)
      → ((r : Request) → c.serve r ≡ answer 404 status b)
      → (handle_summary c e swapped get ≡ served no_scans)
        × (handle_findings c e swapped get ≡ served empty_page)
        × (handle_trends c e swapped get ≡ served [])
        × (handle_coverage c e swapped get ≡ served [])
  unfolding handle_summary handle_findings handle_trends handle_coverage respond summarise findings
      trends coverage summary_of hits_of
  missing_index_is_empty swapped get status b gone = (
    rw (missing_lem status b gone) refl,
    rw (missing_lem status b gone) refl,
    rw (missing_lem status b gone) refl,
    rw (missing_lem status b gone) refl,
  )
