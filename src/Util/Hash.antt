-- ===== src/Util/Hash.antt =====
-- include/SKL/ABIX/Util/Hash.h: the canonical hash engine. A `uint64_t` is a number whose
-- operations wrap at 2 ^ 64, and a buffer of bytes is the list of its bytes.
pub mod Bits
pub mod Bytes
pub mod Lanes
use abix.Prelude.{ℕ, ◌+◌, ◌*◌, ◌/◌, ◌%◌, ◌^◌, bit_xor, Bool, ◌&&◌, not, List, [], ◌∷◌, ◌==◌}

pub record Hash128 : Type 0 where
  pub lo : ℕ
  pub hi : ℕ

-- `operator==` and `operator!=`
abbrev pub eq_hash : Hash128 → Hash128 → Bool
eq_hash lhs rhs = lhs.lo == rhs.lo && lhs.hi == rhs.hi

abbrev pub ne_hash : Hash128 → Hash128 → Bool
ne_hash lhs rhs = not (eq_hash lhs rhs)

-- `Hash128{}`
abbrev pub zero_hash : Hash128
zero_hash = record { lo = 0; hi = 0 }

abbrev pub fnv1a_offset_basis : ℕ
fnv1a_offset_basis = 14_695_981_039_346_656_037

abbrev pub fnv1a_prime : ℕ
fnv1a_prime = 1_099_511_628_211

abbrev pub canonical_hi_prime : ℕ
canonical_hi_prime = 14_029_467_366_897_019_727

pub record CanonicalState : Type 0 where
  pub lo : ℕ
  pub hi : ℕ

unfoldable pub canonical_hash_begin : ℕ → CanonicalState
canonical_hash_begin domain = record {
  lo = bit_xor fnv1a_offset_basis domain;
  hi = (fnv1a_prime + domain) % 2 ^ 64;
}

unfoldable pub canonical_hash_byte : CanonicalState → ℕ → CanonicalState
canonical_hash_byte state byte = record {
  lo = bit_xor state.lo byte * fnv1a_prime % 2 ^ 64;
  hi = bit_xor state.hi (byte + 31) * canonical_hi_prime % 2 ^ 64;
}

unfoldable pub canonical_hash_bytes : CanonicalState → List ℕ → CanonicalState
canonical_hash_bytes state [] = state
canonical_hash_bytes state (b ∷ bs) = canonical_hash_bytes (canonical_hash_byte state b) bs

-- The loop over the shifts: `static_cast<uint8_t>(value >> shift)`.
unfoldable pub hash_shifts : CanonicalState → ℕ → List ℕ → CanonicalState
hash_shifts state value [] = state
hash_shifts state value (shift ∷ shifts) =
    hash_shifts (canonical_hash_byte state (value / 2 ^ shift % 256)) value shifts

unfoldable pub canonical_hash_u32_be : CanonicalState → ℕ → CanonicalState
canonical_hash_u32_be state value = hash_shifts state value (24 ∷ 16 ∷ 8 ∷ 0 ∷ [])

unfoldable pub canonical_hash_u64_be : CanonicalState → ℕ → CanonicalState
canonical_hash_u64_be state value =
    hash_shifts state value (56 ∷ 48 ∷ 40 ∷ 32 ∷ 24 ∷ 16 ∷ 8 ∷ 0 ∷ [])

unfoldable pub canonical_hash : List ℕ → ℕ → Hash128
canonical_hash bytes domain =
    let state = canonical_hash_bytes (canonical_hash_begin domain) bytes in
    record { lo = state.lo; hi = state.hi }
