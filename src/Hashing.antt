-- ===== src/Hashing.antt =====
-- internal/hashing/hasher.go: the digests taken during a download, and the id of an object version.
-- The digest functions are parameters. A `hash.Hash` is the list of the bytes that it was given.
pub mod Digests
use s3nitor.Prelude.{ℕ, String, str_append, List, [], ◌∷◌, ◌++◌, length}
use s3nitor.Prelude.Int.{ℤ, pos, ◌+ℤ◌, wrap64}
use s3nitor.Prelude.Text.{nul}
use s3nitor.Scanner.{Hashes}

pub record Hasher : Type 0 where
  pub md5 : List ℕ
  pub sha1 : List ℕ
  pub sha256 : List ℕ
  pub n : ℤ

unfoldable pub new : Hasher
new = record { md5 = []; sha1 = []; sha256 = []; n = pos 0 }

-- The writers behind `io.MultiWriter` never fail, so all of `p` is written.
unfoldable pub write : Hasher → List ℕ → Hasher
write h p = record h {
  md5 = h.md5 ++ p;
  sha1 = h.sha1 ++ p;
  sha256 = h.sha256 ++ p;
  n = wrap64 (h.n +ℤ pos (length p));
}

pub record Digest : Type 0 where
  pub md5_hex : List ℕ → String
  pub sha1_hex : List ℕ → String
  pub sha256_hex : List ℕ → String

unfoldable pub sum : Digest → Hasher → Hashes
sum d h =
    ("md5", d.md5_hex h.md5) ∷ ("sha1", d.sha1_hex h.sha1) ∷ ("sha256", d.sha256_hex h.sha256) ∷ []

unfoldable pub size : Hasher → ℤ
size h = h.n

-- `io.Copy` hands the body over chunk by chunk.
unfoldable pub write_all : Hasher → List (List ℕ) → Hasher
write_all h [] = h
write_all h (p ∷ ps) = write_all (write h p) ps

-- What is digested for a file id: each part, with a NUL behind it.
unfoldable pub parts_text : List String → String
parts_text [] = ""
parts_text (part ∷ parts) = str_append part (str_append nul (parts_text parts))

unfoldable pub file_id : (String → String) → String → String → String → String
unfolding parts_text
file_id sha256_hex bucket key version = sha256_hex (parts_text (bucket ∷ key ∷ version ∷ []))
