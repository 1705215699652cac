-- ===== src/Examples/Feeds.antt =====
-- The theorems on notifications, sizes and the sandbox at concrete inputs.
use mathlib.Core.Option
use s3nitor.Prelude.{
  ℕ, ◌*◌, ◌^◌, ◌≡◌, refl, inl, inr, String, str_append, if◌then◌else◌, true, false, none, List, [],
  ◌∷◌, leb, ◌==◌, map, keep, arith,
}
use s3nitor.Prelude.Int.{pos, negsuc, ◌-ℤ◌}
use s3nitor.Scanner.{Finding}
use s3nitor.Fallible.{Try, ok}
use s3nitor.Bytes.{codes, trim_space}
use s3nitor.Config.Getters.{Parsers, digits, parse_bytes, is_digit}
use s3nitor.Config.Sizes.{IsExact, parse_bytes_reads}
use s3nitor.Source.Minio.{Readers, decode}
use s3nitor.Source.Minio.Notices.{
  Stored, created_put, removed_delete, notice, reference, was_created, decode_names_created,
}
use s3nitor.Async.Continuation.{from_input, poll_wait}
use s3nitor.Async.Worker.{is_abandoned, is_early, time_since, new_worker}
use s3nitor.Async.Worker.Polling.{Attempt, handle_all}
use s3nitor.Sandbox.{
  Sandbox, Backend, Floats, gt, severity, scan, scanner_of, poll, collector, base_name,
}
use s3nitor.Sandbox.Grades.{IsOrder}
use s3nitor.Sandbox.Polls.{Tells, ticket_of, submitted_is_published}
use s3nitor.Examples.Data.{files, tasks, input}
use s3nitor.Examples.Workers.{open_sink, texts, worker, world, readings}

-- Floats that hold whole numbers.
abbrev whole : Parsers
whole = record {
  parse_float = λ s. Option.map (λ n. record { bits = n }) (digits 0 s);
  parse_duration = λ s. none;
  of_int = λ n. elim n [ pos k ↦ record { bits = k } | negsuc k ↦ record { bits = 0 } ];
  is_negative = λ x. false;
  mul = λ x y. record { bits = x.bits * y.bits };
  to_int64 = λ x. pos x.bits;
  text = λ s. "";
}

whole-IsExact : IsExact whole
whole-IsExact = record {
  parses = λ ds n e h. rw e refl;
  nonnegative = λ n. refl;
  multiplies = λ a b h. refl;
}

parse_bytes_reads_example : parse_bytes whole (codes "512MB") ≡ ok (pos (512 * 2 ^ 20))
unfolding digits is_digit
parse_bytes_reads_example =
    parse_bytes_reads whole b'5' (codes "12") (codes "MB") 512 (2 ^ 20) whole-IsExact refl
      (inr (inl (refl, refl))) (omega arith)

abbrev uploads : List Stored
uploads =
    record {
      event = created_put;
      event_time = "";
      bucket = "b";
      key = codes "a b/c";
      size = pos 3;
      etag = "e";
      sequencer = "1";
    }
    ∷ record {
      event = removed_delete;
      event_time = "";
      bucket = "b";
      key = codes "d";
      size = pos 3;
      etag = "";
      sequencer = "2";
    }
    ∷ []

-- A text with one mark for each byte.
abbrev shown_bytes : List ℕ → String
shown_bytes [] = ""
shown_bytes (b ∷ bs) = str_append (if b == b' ' then "_" else "x") (shown_bytes bs)

abbrev readers : Readers
readers = record {
  wrappers = λ b. ok (map notice uploads ∷ []);
  records = λ b. ok (map notice uploads);
  time_of = λ s. none;
  quoted = λ b. "";
  text = shown_bytes;
}

decode_names_created_example :
    decode readers (codes " {}") ≡ ok (map (reference readers) (keep was_created uploads))
unfolding trim_space
decode_names_created_example =
    decode_names_created readers (codes " {}") b'{' (codes "}") uploads refl (omega arith)
      (inr (refl, refl))

abbrev floats : Floats
floats = record {
  zero = record { bits = 0 };
  ge = λ a b. leb b.bits a.bits;
  eq = λ a b. a.bits == b.bits;
}

floats-IsOrder : IsOrder floats
unfolding gt
floats-IsOrder = record { trans = λ a b c h k. ground arith; gt_trans = λ a b c h k. ground arith }

abbrev ended : Backend
ended = record {
  name = "cape";
  submit = λ base key file. ok "42";
  status = λ base token. ok ("reported", true);
  report = λ base token. ok (record { bits = 7 }, []);
}

abbrev cape : Sandbox
cape = record {
  backend = record ended { status = λ base token. ok ("running", false) };
  base = "http://cape";
  enabled = true;
  max_size = pos 0;
  poll_after = pos 30;
  severity_medium_at = record { bits = 3 };
  severity_high_at = record { bits = 6 };
  severity_critical_at = record { bits = 8 };
}

abbrev attempt : Backend → Attempt
attempt b = record {
  poll_after = pos 10;
  readings = readings;
  collector = collector floats (record cape { backend = b });
}

abbrev open_file : String → Try (List ℕ)
open_file path = ok (1 ∷ [])

submitted_is_published_example :
    let c =
      from_input input
        (scanner_of cape open_file)
        (ticket_of (scan cape open_file input).1)
        (pos 60)
        (pos 4) in
    (f : Finding) × ((handle_all tasks files open_sink texts worker c
        (attempt cape.backend ∷ attempt ended ∷ [])
        world).published
      ≡ f ∷ [])
    × Tells input "cape" true (severity floats cape (record { bits = 7 })) f
unfolding scan base_name from_input poll_wait scanner_of collector poll is_abandoned is_early
    time_since new_worker ◌-ℤ◌
submitted_is_published_example =
    submitted_is_published floats cape tasks files open_sink texts worker input open_file (1 ∷ [])
      "42" (pos 60) (pos 4) (attempt cape.backend ∷ []) (attempt ended) ended "reported"
      (record { bits = 7 }) [] world refl refl refl refl (refl, (refl, tt)) (inr (inl refl), tt)
      refl refl refl refl (λ f. refl)
