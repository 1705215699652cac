-- ===== src/Pipeline/Publish/Batches.antt =====
-- runPublish: the documents received, against those flushed and those that wait.
use s3nitor.Prelude.{
  ◌≡◌, refl, sym, ap, ◌∙◌, inl, inr, Bool, true, false, List, [], ◌∷◌, ◌++◌, length, append-nil,
  append_assoc, String, Bool-cases,
}
use s3nitor.Prelude.Int.{pos, leb_ℤ}
use s3nitor.Scanner.{Finding}
use s3nitor.Config.{Config}
use s3nitor.Pipeline.Publish.{
  Buffer, Flush, Event, arrive, timeout, closed, cancelled, estimate_size, empty_buffer, flush_rest,
  emptied, appended, publish_step, run_publish,
}

-- All documents of some batches, in order.
abbrev pub flushed : List Flush → List Finding
flushed [] = []
flushed (x ∷ xs) = x.batch ++ flushed xs

flushed-append : (xs ys : List Flush) → flushed (xs ++ ys) ≡ flushed xs ++ flushed ys
flushed-append [] ys = refl
flushed-append (x ∷ xs) ys = rw (flushed-append xs ys) (sym (append_assoc x.batch _ _))

-- The documents that arrived before the loop ended.
abbrev arrived : List Event → List Finding
arrived [] = []
arrived (arrive f ∷ es) = f ∷ arrived es
arrived (timeout ∷ es) = arrived es
arrived (closed ∷ es) = []
arrived (cancelled ∷ es) = []

-- The loop came to its end.
abbrev has_ended : List Event → Bool
has_ended [] = false
has_ended (arrive f ∷ es) = has_ended es
has_ended (timeout ∷ es) = has_ended es
has_ended (closed ∷ es) = true
has_ended (cancelled ∷ es) = true

-- What is left in the buffer is flushed whole.
drained :
    (b : Buffer) (fs : List Finding) (t : String)
    → b.batch ≡ fs
    → (flushed (flush_rest fs t) ≡ fs) × ((emptied b fs).batch ≡ [])
unfolding flush_rest emptied
drained b [] t e = (refl, e)
drained b (f ∷ fs) t e = (append-nil (f ∷ fs), refl)

-- Two steps that lose nothing make one.
chained :
    (out more : List Flush) (b₂ b₀ b₁ now later : List Finding)
    → flushed out ++ b₁ ≡ b₀ ++ now
    → flushed more ++ b₂ ≡ b₁ ++ later
    → flushed (out ++ more) ++ b₂ ≡ b₀ ++ (now ++ later)
chained out more b₂ b₀ b₁ now later p q =
    rw (flushed-append out more, append_assoc, q, ← append_assoc, p, append_assoc)

module _ (cfg : Config) where
  appended-conserves :
      (b : Buffer) → flushed (appended cfg b).1 ++ (appended cfg b).0.batch ≡ b.batch
  unfolding appended
  appended-conserves b = elim (Bool-cases (leb_ℤ cfg.publish_batch_size (pos (length b.batch)))) [
    | inl full ↦ rw full (simp append-nil)
    | inr room ↦ rw room (elim (Bool-cases (leb_ℤ cfg.publish_max_bytes b.batch_bytes)) [
      | inl big ↦ rw big (simp append-nil)
      | inr small ↦ rw small
    ])
  ]

  received-conserves :
      (b : Buffer) (f : Finding)
      → flushed (publish_step cfg b (arrive f)).1 ++ (publish_step cfg b (arrive f)).0.batch
        ≡ b.batch ++ f ∷ []
  unfolding publish_step
  received-conserves b f = elim (Bool-cases (leb_ℤ cfg.publish_max_bytes (estimate_size f))) [
    | inl alone ↦
        let (out, gone) = drained b b.batch "bytes" refl in
        rw (alone, flushed-append, out, gone) (append-nil (b.batch ++ f ∷ []))
    | inr small ↦ rw small (appended-conserves _)
  ]

  rest-conserves :
      (b : Buffer) (t : String)
      → flushed (flush_rest b.batch t) ++ (emptied b b.batch).batch ≡ b.batch ++ []
  rest-conserves b t = let (out, gone) = drained b b.batch t refl in rw (out, gone)

  timeout-conserves :
      (b : Buffer)
      → flushed (publish_step cfg b timeout).1 ++ (publish_step cfg b timeout).0.batch
        ≡ b.batch ++ []
  unfolding publish_step
  timeout-conserves b = elim (Bool-cases b.timer) [
    | inl on ↦ rw on (rest-conserves b "interval")
    | inr off ↦ rw off (sym (append-nil b.batch))
  ]

  -- Whatever happens, what was flushed and what is left in the buffer is, in order, what was in the
  -- buffer and what arrived.
  run-conserves :
      (b : Buffer) (es : List Event)
      → flushed (run_publish cfg b es).1 ++ (run_publish cfg b es).0.batch ≡ b.batch ++ arrived es
  unfolding run_publish publish_step
  run-conserves b [] = sym (append-nil b.batch)
  run-conserves b (closed ∷ es) = rest-conserves b "shutdown"
  run-conserves b (cancelled ∷ es) = rest-conserves b "cancelled"
  run-conserves b (timeout ∷ es) =
      chained (publish_step cfg b timeout).1 (run_publish cfg (publish_step cfg b timeout).0 es).1
        (run_publish cfg (publish_step cfg b timeout).0 es).0.batch b.batch
        (publish_step cfg b timeout).0.batch [] (arrived es) (timeout-conserves b)
        (run-conserves (publish_step cfg b timeout).0 es)
  run-conserves b (arrive f ∷ es) =
      chained (publish_step cfg b (arrive f)).1
        (run_publish cfg (publish_step cfg b (arrive f)).0 es).1
        (run_publish cfg (publish_step cfg b (arrive f)).0 es).0.batch b.batch
        (publish_step cfg b (arrive f)).0.batch (f ∷ []) (arrived es) (received-conserves b f)
        (run-conserves (publish_step cfg b (arrive f)).0 es)

  ended-empty :
      (b : Buffer) (es : List Event) → has_ended es ≡ true → (run_publish cfg b es).0.batch ≡ []
  unfolding run_publish publish_step
  ended-empty b [] h = cc
  ended-empty b (closed ∷ es) h = (drained b b.batch "shutdown" refl).1
  ended-empty b (cancelled ∷ es) h = (drained b b.batch "cancelled" refl).1
  ended-empty b (timeout ∷ es) h = ended-empty (publish_step cfg b timeout).0 es h
  ended-empty b (arrive f ∷ es) h = ended-empty (publish_step cfg b (arrive f)).0 es h

  -- When the publish loop ends, by its channel or by its context, every document that arrived has
  -- been flushed, exactly once and in the order of arrival, however arrivals and timeouts mix.
  pub run_publish_flushes_all :
      (es : List Event)
      → has_ended es ≡ true
      → flushed (run_publish cfg empty_buffer es).1 ≡ arrived es
  unfolding empty_buffer
  run_publish_flushes_all es h =
      sym (append-nil _)
      ∙ ap (λ x. flushed (run_publish cfg empty_buffer es).1 ++ x)
          (sym (ended-empty empty_buffer es h))
      ∙ run-conserves empty_buffer es
