-- ===== src/Hashing/Digests.antt =====
-- What the digests and the file id depend on (internal/hashing/hasher.go).
use mathlib.Core.Bool.{false≢true}
use s3nitor.Prelude.{
  ℕ, ◌≡◌, ◌≢◌, ◌⊎◌, inl, inr, refl, sym, ap, ◌∙◌, String, str_eq, eq_iff, Bool-cases, List, [], ◌∷◌,
  ◌++◌, ◌<◌, ◌^◌, length, length-append, append-nil, append_assoc, arith,
}
use s3nitor.Prelude.Int.{ℤ, pos, ◌+ℤ◌, wrap64, wrap64_of_fits, int_laws}
use text.Mathlib.TextLemmas.{append_cancel_right}
use s3nitor.Prelude.Text.{NulFree, joined_inj}
use s3nitor.Hashing.{Hasher, Digest, new, write, write_all, sum, size, parts_text, file_id}

-- All that a list of chunks holds.
abbrev pub joined : List (List ℕ) → List ℕ
joined [] = []
joined (p ∷ ps) = p ++ joined ps

-- A hasher that was given the bytes `w`, fewer than 2^63.
pub record Holds (w : List ℕ) (h : Hasher) : Type 0 where
  pub holds_md5 : h.md5 ≡ w
  pub holds_sha1 : h.sha1 ≡ w
  pub holds_sha256 : h.sha256 ≡ w
  pub holds_size : h.n ≡ pos (length w)

write_size :
    (w p : List ℕ) (n : ℤ)
    → length (w ++ p) < 2 ^ 63
    → n ≡ pos (length w)
    → wrap64 (n +ℤ pos (length p)) ≡ pos (length (w ++ p))
write_size w p n b e =
    rw (e, grown)
      (wrap64_of_fits (pos (length (w ++ p))) (record { above = b; below = omega arith }))
  where
    grown : pos (length w) +ℤ pos (length p) ≡ pos (length (w ++ p))
    grown = omega (int_laws, length-append w p)

write-Holds :
    (w p : List ℕ) (h : Hasher) → length (w ++ p) < 2 ^ 63 → Holds w h → Holds (w ++ p) (write h p)
unfolding write
write-Holds w p h b v = record {
  holds_md5 = ap (λ x. x ++ p) v.holds_md5;
  holds_sha1 = ap (λ x. x ++ p) v.holds_sha1;
  holds_sha256 = ap (λ x. x ++ p) v.holds_sha256;
  holds_size = write_size w p h.n b v.holds_size;
}

write_all-Holds :
    (ps : List (List ℕ)) (w : List ℕ) (h : Hasher)
    → length (w ++ joined ps) < 2 ^ 63
    → Holds w h
    → Holds (w ++ joined ps) (write_all h ps)
unfolding write_all
write_all-Holds [] w h b v = rw append-nil v
write_all-Holds (p ∷ ps) w h b v = rw (← append_assoc) (
    write_all-Holds ps (w ++ p) (write h p) (rw append_assoc b) (
      write-Holds w p h
        (omega
          (arith, length-append w (p ++ joined ps), length-append p (joined ps), length-append w p))
        v))

-- The digests and the size of a download are those of its bytes, however the bytes were cut into
-- chunks; the body is shorter than 2^63 bytes.
sum-write_all :
    (d : Digest) (ps : List (List ℕ))
    → length (joined ps) < 2 ^ 63
    → let h = write_all new ps in
      (sum d h
        ≡ ("md5", d.md5_hex (joined ps))
          ∷ ("sha1", d.sha1_hex (joined ps))
          ∷ ("sha256", d.sha256_hex (joined ps))
          ∷ [])
      × (size h ≡ pos (length (joined ps)))
unfolding sum size new
sum-write_all d ps b =
    let v =
      write_all-Holds ps [] new b
        (record { holds_md5 = refl; holds_sha1 = refl; holds_sha256 = refl; holds_size = refl }) in
    ground arith

same_parts :
    (b k v b' k' v' : String)
    → NulFree b
    → NulFree b'
    → NulFree k
    → NulFree k'
    → parts_text (b ∷ k ∷ v ∷ []) ≡ parts_text (b' ∷ k' ∷ v' ∷ [])
    → (b ≡ b') × (k ≡ k') × (v ≡ v')
unfolding parts_text
same_parts b k v b' k' v' hb hb' hk hk' e =
    let (bucket, rest) = joined_inj b b' _ _ hb hb' e in
    let (key, rest') = joined_inj k k' _ _ hk hk' rest in
    (bucket, key, append_cancel_right v v' _ rest')

-- Equal file ids stand for one bucket, key and version, or the two texts that were digested differ
-- and have one SHA-256; bucket and key hold no NUL.
file_id_inj :
    (sha256_hex : String → String) (b k v b' k' v' : String)
    → NulFree b
    → NulFree b'
    → NulFree k
    → NulFree k'
    → file_id sha256_hex b k v ≡ file_id sha256_hex b' k' v'
    → let s = parts_text (b ∷ k ∷ v ∷ []) in
      let t = parts_text (b' ∷ k' ∷ v' ∷ []) in
      ((b ≡ b') × (k ≡ k') × (v ≡ v')) ⊎ ((s ≢ t) × (sha256_hex s ≡ sha256_hex t))
unfolding file_id
file_id_inj sha256_hex b k v b' k' v' hb hb' hk hk' e = elim (Bool-cases (str_eq s t)) [
  | inl same ↦ inl (same_parts b k v b' k' v' hb hb' hk hk' ((eq_iff s t).0 same))
  | inr other ↦ inr ((λ p. false≢true (sym other ∙ (eq_iff s t).1 p)), e)
]
  where
    s : String
    s = parts_text (b ∷ k ∷ v ∷ [])

    t : String
    t = parts_text (b' ∷ k' ∷ v' ∷ [])
