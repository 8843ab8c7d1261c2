-- ===== src/Util/Hash/Bytes.antt =====
-- The fixed-width encodings: the digest of a word is the digest of its big-endian bytes.
use abix.Prelude.{ℕ, ◌+◌, ◌*◌, ◌/◌, ◌%◌, ◌^◌, ◌<◌, ◌≡◌, refl, arith, List, [], ◌∷◌, ◌++◌}
use abix.Util.Hash.{
  CanonicalState, canonical_hash_byte, canonical_hash_bytes, hash_shifts, canonical_hash_u32_be,
  canonical_hash_u64_be,
}

-- The bytes of a word of two, four or eight bytes, highest first.
abbrev pub be16 : ℕ → List ℕ
be16 v = v / 2 ^ 8 % 256 ∷ v % 256 ∷ []

abbrev pub be32 : ℕ → List ℕ
be32 v = v / 2 ^ 24 % 256 ∷ v / 2 ^ 16 % 256 ∷ be16 v

abbrev pub be64 : ℕ → List ℕ
be64 v = v / 2 ^ 56 % 256 ∷ v / 2 ^ 48 % 256 ∷ v / 2 ^ 40 % 256 ∷ v / 2 ^ 32 % 256 ∷ be32 v

-- The number that big-endian bytes stand for.
abbrev pub of_be : ℕ → List ℕ → ℕ
of_be acc [] = acc
of_be acc (b ∷ bs) = of_be (acc * 256 + b) bs

pub of_be-be32 : (v : ℕ) → v < 2 ^ 32 → of_be 0 (be32 v) ≡ v
of_be-be32 v h = omega arith

pub of_be-be64 : (v : ℕ) → v < 2 ^ 64 → of_be 0 (be64 v) ≡ v
of_be-be64 v h = omega arith

shift-zero : (v : ℕ) → v / 2 ^ 0 % 256 ≡ v % 256
shift-zero v = omega arith

-- The digest of a 32-bit word is that of its four bytes, highest first.
pub canonical_hash_u32_be_lem :
    (s : CanonicalState) (v : ℕ) → canonical_hash_u32_be s v ≡ canonical_hash_bytes s (be32 v)
unfolding canonical_hash_u32_be canonical_hash_bytes hash_shifts
canonical_hash_u32_be_lem s v = rw (shift-zero v)

-- The digest of a 64-bit word is that of its eight bytes, highest first.
pub canonical_hash_u64_be_lem :
    (s : CanonicalState) (v : ℕ) → canonical_hash_u64_be s v ≡ canonical_hash_bytes s (be64 v)
unfolding canonical_hash_u64_be canonical_hash_bytes hash_shifts
canonical_hash_u64_be_lem s v = rw (shift-zero v)

-- The engine is a fold: a concatenation is digested part after part.
pub canonical_hash_bytes-append :
    (s : CanonicalState) (xs ys : List ℕ)
    → canonical_hash_bytes s (xs ++ ys) ≡ canonical_hash_bytes (canonical_hash_bytes s xs) ys
unfolding canonical_hash_bytes
canonical_hash_bytes-append s [] ys = refl
canonical_hash_bytes-append s (x ∷ xs) ys =
    canonical_hash_bytes-append (canonical_hash_byte s x) xs ys
