-- ===== src/Async/Resume.antt =====
-- internal/async/continuation.go: the document of a scan that is collected elsewhere, against the inline one.
use s3nitor.Prelude.{◌≡◌, refl, String, Option, arith}
use s3nitor.Prelude.Int.{pos, ◌≤ℤ◌, ◌<ℤ◌, int_laws}
use s3nitor.Scanner.{
  Time, Duration, ScanInput, Scanner, PendingError, Result, GoError, new_finding, doc_id,
}
use s3nitor.Async.Continuation.{from_input, finding, input_of, poll_wait}

poll_wait_pos : (r d : Duration) → pos 1 ≤ℤ d → pos 1 ≤ℤ poll_wait r d
unfolding poll_wait
poll_wait_pos r d h = ground arith

-- For any scanner, input and result, the document made from a continuation is the one that the
-- pipeline makes inline at the same time, so its id is the same too, although the continuation does
-- not know the local file; and the first poll is after the submission, for a positive default.
pub resumed_is_inline :
    (sha256_hex : String → String) (i : ScanInput) (s : Scanner) (pe : PendingError)
    (default_poll : Duration) (submitted now : Time) (res : Result) (e : Option GoError)
    → pos 1 ≤ℤ default_poll
    → let c = from_input i s pe default_poll submitted in
      (finding c res e now ≡ new_finding i s res e now)
      × (doc_id sha256_hex (finding c res e now) ≡ doc_id sha256_hex (new_finding i s res e now))
      × (c.submitted_at <ℤ c.poll_after)
unfolding from_input finding input_of new_finding
resumed_is_inline sha256_hex i s pe default_poll submitted now res e h =
    (refl, refl, omega (int_laws, poll_wait_pos pe.retry_after default_poll h))
