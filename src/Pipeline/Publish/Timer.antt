-- ===== src/Pipeline/Publish/Timer.antt =====
-- runPublish: the flush timer and the batch that waits for it.
use s3nitor.Prelude.{
  ◌≡◌, refl, sym, ap, ◌∙◌, inl, inr, Bool, true, false, not, Bool-cases, List, [], ◌∷◌, ◌++◌,
  length, ◌==◌, if◌then◌else◌,
}
use s3nitor.Prelude.Int.{pos, leb_ℤ}
use s3nitor.Scanner.{Finding}
use s3nitor.Config.{Config}
use s3nitor.Pipeline.Publish.{
  Buffer, Event, arrive, timeout, closed, cancelled, estimate_size, empty_buffer, emptied, appended,
  received, oversize, filled, publish_step, run_publish,
}

abbrev is_empty : List Finding → Bool
is_empty [] = true
is_empty (f ∷ fs) = false

-- The timer runs exactly while documents wait.
abbrev pub IsTimed : Buffer → Type 0
IsTimed b = b.timer ≡ not (is_empty b.batch)

grown_is_full : (fs : List Finding) (f : Finding) → is_empty (fs ++ f ∷ []) ≡ false
grown_is_full [] f = refl
grown_is_full (g ∷ fs) f = refl

-- The first document starts the timer, and a later one leaves it on.
timer_on :
    (fs : List Finding) (f : Finding) (timer : Bool)
    → timer ≡ not (is_empty fs)
    → (if length (fs ++ f ∷ []) == 1 then true else timer) ≡ true
timer_on [] f timer h = refl
timer_on (g ∷ fs) f timer h = rw h (either (length ((g ∷ fs) ++ f ∷ []) == 1))
  where
    either : (b : Bool) → (if b then true else true) ≡ true
    either true = refl
    either false = refl

emptied-IsTimed : (b : Buffer) (fs : List Finding) → b.batch ≡ fs → IsTimed (emptied b fs)
unfolding emptied empty_buffer
emptied-IsTimed b [] e = rw e refl
emptied-IsTimed b (f ∷ fs) e = refl

module _ (cfg : Config) where
  appended-IsTimed : (b : Buffer) → IsTimed b → IsTimed (appended cfg b).0
  unfolding appended filled empty_buffer
  appended-IsTimed b h = elim (Bool-cases (leb_ℤ cfg.publish_batch_size (pos (length b.batch)))) [
    | inl full ↦ rw full refl
    | inr room ↦ rw room (elim (Bool-cases (leb_ℤ cfg.publish_max_bytes b.batch_bytes)) [
      | inl big ↦ rw big refl
      | inr light ↦ rw light h
    ])
  ]

  received-IsTimed : (b : Buffer) (f : Finding) → IsTimed b → IsTimed (received cfg b f).0
  unfolding received oversize
  received-IsTimed b f h = elim (Bool-cases (leb_ℤ cfg.publish_max_bytes (estimate_size f))) [
    | inl alone ↦ rw alone (emptied-IsTimed b b.batch refl)
    | inr light ↦
        rw light (
          appended-IsTimed _
            (timer_on b.batch f b.timer h ∙ ap not (sym (grown_is_full b.batch f))))
  ]

  timeout-IsTimed : (b : Buffer) → IsTimed b → IsTimed (publish_step cfg b timeout).0
  unfolding publish_step
  timeout-IsTimed b h = elim (Bool-cases b.timer) [
    | inl on ↦ simp on (emptied-IsTimed b b.batch refl)
    | inr off ↦ simp off (rw off at h)
  ]

  run-IsTimed : (b : Buffer) (es : List Event) → IsTimed b → IsTimed (run_publish cfg b es).0
  unfolding run_publish publish_step
  run-IsTimed b [] h = h
  run-IsTimed b (closed ∷ es) h = emptied-IsTimed b b.batch refl
  run-IsTimed b (cancelled ∷ es) h = emptied-IsTimed b b.batch refl
  run-IsTimed b (timeout ∷ es) h =
      run-IsTimed (publish_step cfg b timeout).0 es (timeout-IsTimed b h)
  run-IsTimed b (arrive f ∷ es) h =
      run-IsTimed (publish_step cfg b (arrive f)).0 es (received-IsTimed b f h)

  -- After any arrivals and timeouts the flush timer runs exactly if documents wait in the buffer: no
  -- document waits without a timer, and no timer is left over from a batch that was flushed.
  pub run_publish-IsTimed : (es : List Event) → IsTimed (run_publish cfg empty_buffer es).0
  unfolding empty_buffer
  run_publish-IsTimed es = run-IsTimed empty_buffer es refl
