-- ===== src/Runtime/Search/Pow2.antt =====
-- next_pow2 is the least power of two at or above its argument.
use abix.Prelude.{
  ℕ, zero, suc, ◌+◌, ◌-◌, ◌*◌, ◌/◌, ◌%◌, ◌^◌, ◌≤◌, ◌<◌, ◌≡◌, refl, subst, arith, bit_or, Bool-cases,
  leb, ◌==◌, false, if◌then◌else◌, inl, inr, ◌⊎◌,
}
use native.Mathlib.Nat.{pow-suc}
use abix.Runtime.Search.{next_pow2}
use abix.Runtime.Search.Smear.{bit, half, smear, smear-lt, all_ones, Top, highest_one}

-- The five shifts of a number in terms of its halves.
abbrev smeared : ℕ → ℕ → ℕ
smeared w x = bit_or x (half w x)

abbrev smeared_all : ℕ → ℕ
smeared_all x = smeared 16 (smeared 8 (smeared 4 (smeared 2 (smeared 1 x))))

shift_2 : (x : ℕ) → x / 4 ≡ half 2 x
shift_2 x = omega arith

shift_4 : (x : ℕ) → x / 16 ≡ half 4 x
shift_4 x = omega arith

shift_8 : (x : ℕ) → x / 256 ≡ half 8 x
shift_8 x = omega arith

shift_16 : (x : ℕ) → x / 65_536 ≡ half 16 x
shift_16 x = omega arith

next_pow2-smeared_all :
    (v : ℕ) → next_pow2 v ≡ (if v == 0 then 1 else (smeared_all (v - 1) + 1) % 2 ^ 32)
unfolding next_pow2
next_pow2-smeared_all v =
    let v1 = smeared 1 (v - 1) in
    let v2 = smeared 2 v1 in
    let v4 = smeared 4 v2 in
    let v8 = smeared 8 v4 in rw (shift_2 v1, shift_4 v2, shift_8 v4, shift_16 v8) refl

smeared_all-lt : (m x : ℕ) → x < 2 ^ m → smeared_all x < 2 ^ m
smeared_all-lt m x h =
    smear-lt m 16 _ (smear-lt m 8 _ (smear-lt m 4 _ (smear-lt m 2 _ (smear-lt m 1 x h))))

smeared_all-power : (n : ℕ) (t : Top 31 n) → smeared_all n + 1 ≡ 2 ^ suc t.place
smeared_all-power n t =
    let k = t.place in
    let v1 = smeared 1 n in
    let v2 = smeared 2 v1 in
    let v4 = smeared 4 v2 in
    let v8 = smeared 8 v4 in
    let top : (i : ℕ) → i ≤ k → k < i + 1 → bit i n ≡ 1 = λ i low high.
      (let same : k ≡ i = omega (arith, low, high) in subst (λ j. bit j n ≡ 1) same t.one) in
    all_ones (suc k) (smeared_all n) (smeared_all-lt (suc k) n t.most) (λ i low.
      smear k 16 v8 (smear k 8 v4 (smear k 4 v2 (smear k 2 v1 (smear k 1 n top)))) i
        (omega (arith, low)) (omega (arith, t.within)))

-- A power of two that is at or above a number, and below its double.
pub record IsCeiling (v power : ℕ) : Type 0 where
  pub exponent : ℕ
  pub small : exponent ≤ 31
  pub is_power : power ≡ 2 ^ exponent
  pub above : v ≤ power
  pub least : (v ≡ 0) ⊎ (power < v * 2)

-- For every number up to 2 ^ 31, next_pow2 gives a power of two that is at or above it and, unless the
-- number is 0, below its double: the least such power.
pub next_pow2-IsCeiling : (v : ℕ) → v ≤ 2 ^ 31 → IsCeiling v (next_pow2 v)
next_pow2-IsCeiling v h = elim (Bool-cases (leb v 1)) [
  | inl small ↦
      let one : next_pow2 v ≡ 1 = ones_and_zero v (ground (arith, small)) in
      rw one (record {
        exponent = 0;
        small = omega arith;
        is_power = refl;
        above = ground (arith, small);
        least = elim (Bool-cases (v == 0)) [
          | inl z ↦ inl (ground (arith, z))
          | inr p ↦ let pos : 0 < v = ground (arith, p) in inr (omega (arith, pos))
        ];
      })
  | inr large ↦
      let two : 2 ≤ v = ground (arith, large) in
      let t = highest_one 31 (v - 1) (omega (arith, two)) (omega (arith, two, h)) in
      let whole = smeared_all-power (v - 1) t in
      let bounded = smeared_all-lt 31 (v - 1) (omega (arith, two, h)) in
      let value : next_pow2 v ≡ 2 ^ suc t.place = power v two whole bounded in
      rw value (record {
        exponent = suc t.place;
        small = omega (arith, t.within);
        is_power = refl;
        above = omega (arith, t.most, two);
        least = inr (omega (arith, t.least, pow-suc 2 t.place, two));
      })
]
  where
    ones_and_zero : (n : ℕ) → n ≤ 1 → next_pow2 n ≡ 1
    ones_and_zero zero low = rw (next_pow2-smeared_all 0) refl
    ones_and_zero (suc zero) low = rw (next_pow2-smeared_all 1) refl
    ones_and_zero (suc (suc n)) low = absurd (omega (arith, low))

    power :
        (n : ℕ) {k : ℕ}
        → 2 ≤ n
        → smeared_all (n - 1) + 1 ≡ k
        → smeared_all (n - 1) < 2 ^ 31
        → next_pow2 n ≡ k
    power n two e low =
        let positive : (n == 0) ≡ false = ground (arith, two) in
        let fits : (smeared_all (n - 1) + 1) % 2 ^ 32 ≡ smeared_all (n - 1) + 1 =
          omega (arith, low) in
        rw (next_pow2-smeared_all n, positive, fits) e
