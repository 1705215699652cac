-- ===== src/Async/Continuation.antt =====
-- internal/async/continuation.go: what travels from the scanner to the worker.
use s3nitor.Prelude.{String, Option, none, if◌then◌else◌}
use s3nitor.Prelude.Int.{ℤ, pos, ◌+ℤ◌, leb_ℤ}
use s3nitor.Scanner.{
  Time, Duration, Hashes, ScanInput, Scanner, PendingError, GoError, Result, Finding,
  new_finding_for,
}

pub record Continuation : Type 0 where
  pub file_id : String
  pub bucket : String
  pub key : String
  pub version : String
  pub size : ℤ
  pub hashes : Hashes
  pub scanner : String
  pub rules_version : String
  pub token : String
  pub submitted_at : Time
  pub poll_after : Time

unfoldable pub poll_wait : Duration → Duration → Duration
poll_wait retry_after default_poll = if leb_ℤ retry_after (pos 0) then default_poll else retry_after

unfoldable pub from_input : ScanInput → Scanner → PendingError → Duration → Time → Continuation
unfolding poll_wait
from_input i s pe default_poll now = record {
  file_id = i.file_id;
  bucket = i.bucket;
  key = i.key;
  version = i.version;
  size = i.size;
  hashes = i.hashes;
  scanner = s.name;
  rules_version = s.rules_version;
  token = pe.token;
  submitted_at = now;
  poll_after = now +ℤ poll_wait pe.retry_after default_poll;
}

-- The input that a continuation stands for. It names no local file.
unfoldable pub input_of : Continuation → ScanInput
input_of c = record {
  file_id = c.file_id;
  bucket = c.bucket;
  key = c.key;
  version = c.version;
  size = c.size;
  hashes = c.hashes;
  local_path = "";
}

unfoldable pub finding : Continuation → Result → Option GoError → Time → Finding
unfolding input_of
finding c res scan_err now = new_finding_for (input_of c) c.scanner c.rules_version res scan_err now

-- The publisher that is used where no broker is configured.
unfoldable discard : Continuation → Option GoError
discard c = none
