-- ===== src/Util/Hash/Lanes.antt =====
-- One step of the engine can be undone, so a common suffix cannot make two states collide.
use abix.Prelude.{ℕ, ◌+◌, ◌*◌, ◌%◌, ◌^◌, ◌<◌, ◌≡◌, arith, List, [], ◌∷◌, bit_xor, All}
use abix.Util.Hash.{
  CanonicalState, canonical_hash_byte, canonical_hash_bytes, fnv1a_prime, canonical_hi_prime,
}
use abix.Util.Hash.Bits.{bit_xor_cancel, bit_xor-lt}

-- Both multipliers are odd.
mul_lo_cancel :
    (x y : ℕ)
    → x < 2 ^ 64
    → y < 2 ^ 64
    → x * fnv1a_prime % 2 ^ 64 ≡ y * fnv1a_prime % 2 ^ 64
    → x ≡ y
mul_lo_cancel x y p q e = omega arith

mul_hi_cancel :
    (x y : ℕ)
    → x < 2 ^ 64
    → y < 2 ^ 64
    → x * canonical_hi_prime % 2 ^ 64 ≡ y * canonical_hi_prime % 2 ^ 64
    → x ≡ y
mul_hi_cancel x y p q e = omega arith

-- Both lanes are 64-bit words.
pub record IsWords (s : CanonicalState) : Type 0 where
  pub lo_fits : s.lo < 2 ^ 64
  pub hi_fits : s.hi < 2 ^ 64

abbrev pub IsByte : ℕ → Type 0
IsByte b = b < 256

pub canonical_hash_byte-IsWords : (s : CanonicalState) (b : ℕ) → IsWords (canonical_hash_byte s b)
unfolding canonical_hash_byte
canonical_hash_byte-IsWords s b = record { lo_fits = omega arith; hi_fits = omega arith }

canonical_hash_byte_inj :
    (s t : CanonicalState) (b : ℕ)
    → IsWords s
    → IsWords t
    → IsByte b
    → canonical_hash_byte s b ≡ canonical_hash_byte t b
    → s ≡ t
unfolding canonical_hash_byte
canonical_hash_byte_inj s t b hs ht hb e =
    let lo =
      mul_lo_cancel (bit_xor s.lo b) (bit_xor t.lo b)
        (bit_xor-lt 64 s.lo b hs.lo_fits (omega arith))
        (bit_xor-lt 64 t.lo b ht.lo_fits (omega arith)) (λ i. (e i).lo) in
    let hi =
      mul_hi_cancel (bit_xor s.hi (b + 31)) (bit_xor t.hi (b + 31))
        (bit_xor-lt 64 s.hi (b + 31) hs.hi_fits (omega arith))
        (bit_xor-lt 64 t.hi (b + 31) ht.hi_fits (omega arith)) (λ i. (e i).hi) in
    let lo_eq = bit_xor_cancel s.lo t.lo b lo in
    let hi_eq = bit_xor_cancel s.hi t.hi (b + 31) hi in λ i. record { lo = lo_eq i; hi = hi_eq i }

-- Two states that differ still differ after the same bytes: every collision of the engine arises
-- where the inputs differ, never in a common suffix.
pub canonical_hash_bytes_inj :
    (s t : CanonicalState) (bs : List ℕ)
    → IsWords s
    → IsWords t
    → All IsByte bs
    → canonical_hash_bytes s bs ≡ canonical_hash_bytes t bs
    → s ≡ t
unfolding canonical_hash_bytes
canonical_hash_bytes_inj s t [] hs ht hb e = e
canonical_hash_bytes_inj s t (b ∷ bs) hs ht hb e = canonical_hash_byte_inj s t b hs ht hb.0 (
    canonical_hash_bytes_inj (canonical_hash_byte s b) (canonical_hash_byte t b) bs
      (canonical_hash_byte-IsWords s b) (canonical_hash_byte-IsWords t b) hb.1 e)
