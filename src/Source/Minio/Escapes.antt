-- ===== src/Source/Minio/Escapes.antt =====
-- url.QueryUnescape against the escaping that MinIO applies to a key.
use s3nitor.Prelude.{
  ℕ, ◌*◌, ◌+◌, ◌-◌, ◌/◌, ◌%◌, ◌<◌, ◌≡◌, refl, ◌∙◌, inl, inr, Bool, Bool-cases, true, false, ◌&&◌,
  ◌||◌, List, [], ◌∷◌, ◌++◌, All, leb, ltb, ◌==◌, if◌then◌else◌, arith,
}
use s3nitor.Fallible.{ok, ◌>>=◌}
use s3nitor.Source.Minio.{Readers, query_unescape, plain, is_hex, unhex}

-- The bytes that stand for themselves in an escaped text.
abbrev is_unreserved : ℕ → Bool
is_unreserved c =
    (leb b'a' c && leb c b'z')
    || (leb b'A' c && leb c b'Z')
    || (leb b'0' c && leb c b'9')
    || c == b'-'
    || c == b'_'
    || c == b'.'
    || c == b'~'

abbrev hex_digit : ℕ → ℕ
hex_digit n = if ltb n 10 then b'0' + n else b'A' + n - 10

abbrev escape_byte : ℕ → List ℕ
escape_byte c =
    if is_unreserved c
    then c ∷ []
    else (if c == b' ' then b'+' ∷ [] else b'%' ∷ hex_digit (c / 16) ∷ hex_digit (c % 16) ∷ [])

-- url.QueryEscape.
abbrev pub query_escape : List ℕ → List ℕ
query_escape [] = []
query_escape (c ∷ s) = escape_byte c ++ query_escape s

unhex-digit : (n : ℕ) → n < 16 → (is_hex (hex_digit n) ≡ true) × (unhex (hex_digit n) ≡ n)
unfolding is_hex unhex
unhex-digit n h = ground arith

unreserved-plain : (c : ℕ) → is_unreserved c ≡ true → ((c == b'%') ≡ false) × (plain c ≡ c)
unfolding plain
unreserved-plain c h = ground arith

module _ (read : Readers) where
  unescape-plain :
      (c : ℕ) (s : List ℕ)
      → (c == b'%') ≡ false
      → query_unescape read (c ∷ s) ≡ (query_unescape read s >>= λ t. ok (plain c ∷ t))
  unfolding query_unescape
  unescape-plain c [] h = rw (h, query_unescape) refl
  unescape-plain c (d ∷ []) h = rw (h, query_unescape) refl
  unescape-plain c (d ∷ e ∷ s) h = rw (h, query_unescape) refl

  unescape-byte :
      (c : ℕ) (s : List ℕ)
      → c < 256
      → query_unescape read (escape_byte c ++ s) ≡ (query_unescape read s >>= λ t. ok (c ∷ t))
  unfolding query_unescape
  unescape-byte c s h = elim (Bool-cases (is_unreserved c)) [
    | inl u ↦ let (p, q) = unreserved-plain c u in rw u (unescape-plain c s p ∙ rw q refl)
    | inr u ↦ elim (Bool-cases (c == b' ')) [
      | inl space ↦
          let e : c ≡ b' ' = ground arith in rw (u, space) (unescape-plain b'+' s refl ∙ rw e refl)
      | inr other ↦
          let (hi, vi) = unhex-digit (c / 16) (omega arith) in
          let (lo, vo) = unhex-digit (c % 16) (omega arith) in
          let e : (c / 16) * 16 + c % 16 ≡ c = omega arith in
          rw (u, other, query_unescape, hi, lo, vi, vo, e) refl
    ]
  ]

  -- An escaped text is unescaped to itself.
  pub unescape-escape :
      (s : List ℕ) → All (λ c. c < 256) s → query_unescape read (query_escape s) ≡ ok s
  unfolding query_unescape
  unescape-escape [] h = refl
  unescape-escape (c ∷ s) (h, hs) =
      unescape-byte c (query_escape s) h ∙ rw (unescape-escape s hs) refl
