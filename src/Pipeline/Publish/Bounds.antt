-- ===== src/Pipeline/Publish/Bounds.antt =====
-- runPublish: the sizes of the flushed batches.
use s3nitor.Prelude.{
  ℕ, ◌+◌, ◌*◌, ◌≤◌, ◌<◌, ◌^◌, ◌≡◌, refl, ap, ◌∙◌, ◌⊎◌, inl, inr, Bool-cases, List, [], ◌∷◌, ◌++◌,
  All, All-append, length, length-append, arith, String,
}
use s3nitor.Prelude.Text.{byte_length}
use s3nitor.Prelude.Int.{
  pos, pos_part, neg_part, ◌+ℤ◌, ◌≤ℤ◌, ◌<ℤ◌, leb_ℤ, wrap64, wrap64_of_fits, int_laws,
}
use s3nitor.Scanner.{Finding}
use s3nitor.Config.{Config}
use s3nitor.Pipeline.Publish.{
  Buffer, Flush, Event, arrive, timeout, closed, cancelled, estimate_size, empty_buffer, flush_rest,
  emptied, appended, received, oversize, filled, publish_step, run_publish,
}

-- What a document is taken to weigh: 512 bytes, the bytes of its bucket, key and scanner, and 96 for
-- each entry of its detail.
pub weight : Finding → ℕ
weight f =
    512 + (byte_length f.bucket + byte_length f.key + byte_length f.scanner) + 96 * length f.detail

-- The same of some documents.
abbrev pub total : List Finding → ℕ
total [] = 0
total (f ∷ fs) = weight f + total fs

total-append : (fs gs : List Finding) → total (fs ++ gs) ≡ total fs + total gs
total-append [] gs = omega arith
total-append (f ∷ fs) gs = omega (arith, total-append fs gs)

estimate_size-weight : (f : Finding) → estimate_size f ≡ pos (weight f)
unfolding estimate_size weight
estimate_size-weight f = ap pos (omega arith)

module _ (cfg : Config) where
  -- A request is one document, or at most as many as a batch may hold, that weigh less than twice the
  -- ceiling in all.
  abbrev AreFew : List Finding → Type 0
  AreFew fs =
      (length fs ≡ 1)
      ⊎ ((1 ≤ length fs)
          × (pos (length fs) ≤ℤ cfg.publish_batch_size)
          × (total fs < 2 * pos_part cfg.publish_max_bytes))

  abbrev pub IsSmall : Flush → Type 0
  IsSmall x = AreFew x.batch

  -- A batch that waits is below both limits, its size is counted, and it waits under a timer.
  abbrev IsWaiting : Buffer → Type 0
  IsWaiting b =
      (b.batch_bytes ≡ pos (total b.batch))
      × ((b.batch ≡ [])
          ⊎ ((1 ≤ length b.batch)
              × (pos (length b.batch) <ℤ cfg.publish_batch_size)
              × (pos (total b.batch) <ℤ cfg.publish_max_bytes)))

  appended-Bounds :
      (b : Buffer)
      → (b.batch_bytes ≡ pos (total b.batch))
      → (1 ≤ length b.batch)
      → AreFew b.batch
      → IsWaiting (appended cfg b).0 × All IsSmall (appended cfg b).1
  unfolding appended filled empty_buffer
  appended-Bounds b e n small =
      elim (Bool-cases (leb_ℤ cfg.publish_batch_size (pos (length b.batch)))) [
        | inl full ↦ rw full ((refl, inl refl), (small, tt))
        | inr room ↦ rw room (elim (Bool-cases (leb_ℤ cfg.publish_max_bytes b.batch_bytes)) [
          | inl big ↦ rw big ((refl, inl refl), (small, tt))
          | inr light ↦
              let light' = rw e at light in rw light ((e, inr (n, ground arith, ground arith)), tt)
        ])
      ]

  rest-IsSmall :
      (fs : List Finding) (t : String)
      → (fs ≡ [])
        ⊎ ((1 ≤ length fs)
            × (pos (length fs) <ℤ cfg.publish_batch_size)
            × (pos (total fs) <ℤ cfg.publish_max_bytes))
      → All IsSmall (flush_rest fs t)
  unfolding flush_rest
  rest-IsSmall [] t h = tt
  rest-IsSmall (f ∷ fs) t (inl h) = absurd (ground arith)
  rest-IsSmall (f ∷ fs) t (inr (n, l, m)) = (inr (n, omega arith, omega arith), tt)

  emptied-IsWaiting :
      (b : Buffer) (fs : List Finding)
      → b.batch ≡ fs
      → b.batch_bytes ≡ pos (total b.batch)
      → IsWaiting (emptied b fs)
  unfolding emptied empty_buffer
  emptied-IsWaiting b [] e h = (h, inl e)
  emptied-IsWaiting b (f ∷ fs) e h = (refl, inl refl)

  grown-AreFew :
      (b : Buffer) (f : Finding)
      → IsWaiting b
      → estimate_size f <ℤ cfg.publish_max_bytes
      → AreFew (b.batch ++ f ∷ [])
  grown-AreFew b f (e, inl none) s = rw none (inl (omega arith))
  grown-AreFew b f (e, inr (n, l, m)) s = inr (
    omega (arith, length-append b.batch (f ∷ [])),
    omega (arith, length-append b.batch (f ∷ [])),
    omega (
      arith,
      total-append b.batch (f ∷ []),
      ap pos_part (estimate_size-weight f),
      ap neg_part (estimate_size-weight f),
    ),
  )

  grown_bytes :
      (b : Buffer) (f : Finding)
      → pos_part cfg.publish_max_bytes ≤ 2 ^ 62
      → IsWaiting b
      → estimate_size f <ℤ cfg.publish_max_bytes
      → wrap64 (b.batch_bytes +ℤ estimate_size f) ≡ pos (total (b.batch ++ f ∷ []))
  grown_bytes b f cap (e, w) s =
      let t : total b.batch < 2 ^ 62 = light w in
      let sum : b.batch_bytes +ℤ estimate_size f ≡ pos (total (b.batch ++ f ∷ [])) = omega (
        int_laws,
        ap pos_part e,
        ap neg_part e,
        ap pos_part (estimate_size-weight f),
        ap neg_part (estimate_size-weight f),
        total-append b.batch (f ∷ []),
      ) in
      let fits : total (b.batch ++ f ∷ []) < 2 ^ 63 = omega (
        arith,
        t,
        total-append b.batch (f ∷ []),
        ap pos_part (estimate_size-weight f),
        ap neg_part (estimate_size-weight f),
      ) in
      ap wrap64 sum
      ∙ wrap64_of_fits (pos (total (b.batch ++ f ∷ [])))
          (record { above = fits; below = omega arith })
    where
      light :
          (b.batch ≡ [])
            ⊎ ((1 ≤ length b.batch)
                × (pos (length b.batch) <ℤ cfg.publish_batch_size)
                × (pos (total b.batch) <ℤ cfg.publish_max_bytes))
          → total b.batch < 2 ^ 62
      light (inl none) = rw none (omega arith)
      light (inr (n, l, m)) = omega arith

  received-Bounds :
      (b : Buffer) (f : Finding)
      → pos_part cfg.publish_max_bytes ≤ 2 ^ 62
      → IsWaiting b
      → IsWaiting (received cfg b f).0 × All IsSmall (received cfg b f).1
  unfolding received oversize
  received-Bounds b f cap w = elim (Bool-cases (leb_ℤ cfg.publish_max_bytes (estimate_size f))) [
    | inl alone ↦ rw alone (
      emptied-IsWaiting b b.batch refl w.0,
      All-append IsSmall _ _ (rest-IsSmall b.batch "bytes" w.1) (inl (omega arith), tt),
    )
    | inr light ↦
        let s : estimate_size f <ℤ cfg.publish_max_bytes = ground arith in
        rw light (
          appended-Bounds _ (grown_bytes b f cap w s)
            (omega (arith, length-append b.batch (f ∷ []))) (grown-AreFew b f w s))
  ]

  step-Bounds :
      (b : Buffer) (x : Event)
      → pos_part cfg.publish_max_bytes ≤ 2 ^ 62
      → IsWaiting b
      → IsWaiting (publish_step cfg b x).0 × All IsSmall (publish_step cfg b x).1
  unfolding publish_step
  step-Bounds b (arrive f) cap w = received-Bounds b f cap w
  step-Bounds b closed cap w =
      (emptied-IsWaiting b b.batch refl w.0, rest-IsSmall b.batch "shutdown" w.1)
  step-Bounds b cancelled cap w =
      (emptied-IsWaiting b b.batch refl w.0, rest-IsSmall b.batch "cancelled" w.1)
  step-Bounds b timeout cap w = elim (Bool-cases b.timer) [
    | inl on ↦ simp on (emptied-IsWaiting b b.batch refl w.0, rest-IsSmall b.batch "interval" w.1)
    | inr off ↦ simp off (w, tt)
  ]

  run-Bounds :
      (b : Buffer) (es : List Event)
      → pos_part cfg.publish_max_bytes ≤ 2 ^ 62
      → IsWaiting b
      → All IsSmall (run_publish cfg b es).1
  unfolding run_publish
  run-Bounds b [] cap w = tt
  run-Bounds b (closed ∷ es) cap w = (step-Bounds b closed cap w).1
  run-Bounds b (cancelled ∷ es) cap w = (step-Bounds b cancelled cap w).1
  run-Bounds b (timeout ∷ es) cap w =
      let (w', out) = step-Bounds b timeout cap w in
      All-append IsSmall _ _ out (run-Bounds (publish_step cfg b timeout).0 es cap w')
  run-Bounds b (arrive f ∷ es) cap w =
      let (w', out) = step-Bounds b (arrive f) cap w in
      All-append IsSmall _ _ out (run-Bounds (publish_step cfg b (arrive f)).0 es cap w')

  -- Every request of the publish loop holds one document, or at most PUBLISH_BATCH_SIZE documents
  -- that weigh less than twice PUBLISH_MAX_BYTES in all, and none is empty; the ceiling is at most
  -- 2^62. The weight is an estimate, not the size of the encoded documents: 512 bytes for each, the
  -- bytes of its bucket, key and scanner, and 96 for each entry of its detail.
  pub run_publish-IsSmall :
      (es : List Event)
      → pos_part cfg.publish_max_bytes ≤ 2 ^ 62
      → All IsSmall (run_publish cfg empty_buffer es).1
  unfolding empty_buffer
  run_publish-IsSmall es cap = run-Bounds empty_buffer es cap (refl, inl refl)
