-- ===== src/Runtime/Search/Smear.antt =====
-- The digits of a number, and what `v |= v >> w` does to them.
use native.Mathlib.Nat.{pow-suc}
use Prim.Native.Nat.{max}
use abix.Prelude.{
  ℕ, zero, suc, ◌+◌, ◌/◌, ◌%◌, ◌^◌, ◌≤◌, ◌<◌, ◌≡◌, refl, sym, subst, arith, bit_or, Bool-cases, leb,
  inl, inr,
}
use abix.Runtime.Search.Bits.{bit_or_step, zero-bit_or}

-- The digit of a number at a place.
abbrev pub bit : ℕ → ℕ → ℕ
bit zero x = x % 2
bit (suc i) x = bit i (x / 2)

abbrev pub half : ℕ → ℕ → ℕ
half zero x = x
half (suc n) x = half n (x / 2)

bit-le : (i x : ℕ) → bit i x ≤ 1
bit-le zero x = omega arith
bit-le (suc i) x = bit-le i (x / 2)

bit-bit_or : (i a b : ℕ) → bit i (bit_or a b) ≡ max (bit i a) (bit i b)
bit-bit_or zero a b = omega (arith, bit_or_step a b)
bit-bit_or (suc i) a b =
    let halved : bit_or a b / 2 ≡ bit_or (a / 2) (b / 2) = omega (arith, bit_or_step a b) in
    rw halved (bit-bit_or i (a / 2) (b / 2))

bit-half : (n i x : ℕ) → bit i (half n x) ≡ bit (n + i) x
bit-half zero i x = let e : 0 + i ≡ i = omega arith in subst (λ j. bit i x ≡ bit j x) (sym e) refl
bit-half (suc n) i x =
    let e : suc n + i ≡ suc (n + i) = omega arith in
    subst (λ j. bit i (half n (x / 2)) ≡ bit j x) (sym e) (bit-half n i (x / 2))

bit_or-lt : (k a b : ℕ) → a < 2 ^ k → b < 2 ^ k → bit_or a b < 2 ^ k
bit_or-lt zero a b p q = let a0 : a ≡ 0 = omega arith in rw a0 (omega (arith, zero-bit_or b))
bit_or-lt (suc k) a b p q = omega (
  arith,
  pow-suc 2 k,
  bit_or_step a b,
  bit_or-lt k (a / 2) (b / 2) (omega (arith, pow-suc 2 k)) (omega (arith, pow-suc 2 k)),
)

half-le : (n x : ℕ) → half n x ≤ x
half-le zero x = omega arith
half-le (suc n) x = omega (arith, half-le n (x / 2))

-- The digits from `k` down are ones, `w` of them or all.
abbrev Ones : ℕ → ℕ → ℕ → Type 0
Ones k w x = (i : ℕ) → i ≤ k → k < i + w → bit i x ≡ 1

-- `v |= v >> w` doubles their number.
pub smear : (k w x : ℕ) → Ones k w x → Ones k (w + w) (bit_or x (half w x))
smear k w x ones i low high = elim (Bool-cases (leb (i + w) k)) [
  | inl shifted ↦
      let room : w + i ≤ k = ground (arith, shifted) in
      let one : bit (w + i) x ≡ 1 = ones (w + i) room (omega (arith, high)) in
      omega (arith, bit-bit_or i x (half w x), bit-half w i x, one, bit-le i x)
  | inr there ↦
      let near : k < i + w = ground (arith, there) in
      omega (arith, bit-bit_or i x (half w x), ones i low near, bit-le i (half w x))
]

pub smear-lt : (m w x : ℕ) → x < 2 ^ m → bit_or x (half w x) < 2 ^ m
smear-lt m w x h = bit_or-lt m x (half w x) h (omega (arith, h, half-le w x))

-- All digits ones.
pub all_ones : (m x : ℕ) → x < 2 ^ m → ((i : ℕ) → i < m → bit i x ≡ 1) → x + 1 ≡ 2 ^ m
all_ones zero x h ones = omega (arith, h)
all_ones (suc m) x h ones =
    let rest =
      all_ones m (x / 2) (omega (arith, h, pow-suc 2 m))
        (λ i low. ones (suc i) (omega (arith, low))) in
    omega (arith, rest, pow-suc 2 m, ones 0 (omega arith))

-- The highest digit.
pub record Top (m n : ℕ) : Type 0 where
  pub place : ℕ
  pub within : place < m
  pub one : bit place n ≡ 1
  pub least : 2 ^ place ≤ n
  pub most : n < 2 ^ suc place

pub highest_one : (m n : ℕ) → 0 < n → n < 2 ^ m → Top m n
highest_one zero n p h = absurd (omega (arith, p, h))
highest_one (suc m) n p h = elim (Bool-cases (leb n 1)) [
  | inl small ↦
      let one : n ≡ 1 = ground (arith, small, p) in
      record {
        place = 0;
        within = omega arith;
        one = omega (arith, one);
        least = omega (arith, one);
        most = omega (arith, one);
      }
  | inr large ↦
      let rest = highest_one m (n / 2) (ground (arith, large)) (omega (arith, h, pow-suc 2 m)) in
      record {
        place = suc rest.place;
        within = omega (arith, rest.within);
        one = rest.one;
        least = omega (arith, rest.least, pow-suc 2 rest.place);
        most = omega (arith, rest.most, pow-suc 2 (suc rest.place));
      }
]
