-- ===== src/Runtime/Search/Bits.antt =====
-- Bitwise or and and with a mask at variables, by the digit: what next_pow2 and `hash & mask` compute.
use Prim.Native.Nat.{digits, min, max, bit_or-bitwise, bit_and-bitwise}
use native.Mathlib.Nat.{pow-suc}
use abix.Prelude.{
  ℕ, zero, suc, ◌+◌, ◌*◌, ◌/◌, ◌%◌, ◌^◌, ◌≤◌, ◌≡◌, ◌∙◌, refl, arith, bit_or, bit_and, Bool-cases,
  ◌==◌, inl, inr,
}

-- The fuel of an operation by digits, past the number itself, changes nothing.
module _ (high : ℕ → ℕ) (digit : ℕ → ℕ → ℕ) where
  spare_unit :
      (fuel x y : ℕ) → x ≤ fuel → digits high digit (suc fuel) x y ≡ digits high digit fuel x y
  spare_unit zero zero y enough = refl
  spare_unit zero (suc x) y enough = absurd (omega (arith, enough))
  spare_unit (suc fuel) zero y enough = refl
  spare_unit (suc fuel) (suc x) y enough =
      let deeper = spare_unit fuel (suc x / 2) (y / 2) (omega (arith, enough)) in rw deeper refl

  spare_fuel :
      (fuel needed x y : ℕ)
      → x ≤ needed
      → needed ≤ fuel
      → digits high digit fuel x y ≡ digits high digit needed x y
  spare_fuel zero zero x y low enough = refl
  spare_fuel zero (suc needed) x y low enough = absurd (omega (arith, enough))
  spare_fuel (suc fuel) needed x y low enough = elim (Bool-cases (needed == suc fuel)) [
    | inl exact ↦ let same : needed ≡ suc fuel = ground (arith, exact) in rw same refl
    | inr more ↦
        let within : needed ≤ fuel = ground (arith, more, enough) in
        spare_unit fuel x y (omega (arith, low, within)) ∙ spare_fuel fuel needed x y low within
  ]

  halved :
      (x y : ℕ)
      → digits high digit (suc x) (suc x) y
        ≡ digits high digit (suc x / 2) (suc x / 2) (y / 2) * 2 + digit (suc x % 2) (y % 2)
  halved x y =
      let inner = spare_fuel x (suc x / 2) (suc x / 2) (y / 2) (omega arith) (omega arith) in
      rw (← inner) refl

pub zero-bit_or : (y : ℕ) → bit_or 0 y ≡ y
zero-bit_or y = bit_or-bitwise 0 y

pub bit_or_step : (x y : ℕ) → bit_or x y ≡ bit_or (x / 2) (y / 2) * 2 + max (x % 2) (y % 2)
bit_or_step zero y =
    let whole = zero-bit_or y in let half = zero-bit_or (y / 2) in omega (arith, whole, half)
bit_or_step (suc x) y =
    let half = bit_or-bitwise (suc x / 2) (y / 2) in
    bit_or-bitwise (suc x) y ∙ halved (λ rest. rest) max x y ∙ rw half refl

no-bit_and : (y : ℕ) → bit_and 0 y ≡ 0
no-bit_and y = bit_and-bitwise 0 y

bit_and_digit : (x y : ℕ) → bit_and x y ≡ bit_and (x / 2) (y / 2) * 2 + min (x % 2) (y % 2)
bit_and_digit zero y =
    let whole = no-bit_and y in let half = no-bit_and (y / 2) in omega (arith, whole, half)
bit_and_digit (suc x) y =
    let half = bit_and-bitwise (suc x / 2) (y / 2) in
    bit_and-bitwise (suc x) y ∙ halved (λ rest. 0) min x y ∙ rw half refl

-- One below a power of two lets through what is below it, and nothing of the power itself.
pub bit_and_below : (k a mask : ℕ) → mask + 1 ≡ 2 ^ k → a ≤ mask → bit_and a mask ≡ a
bit_and_below zero a mask e h = let z : a ≡ 0 = omega (arith, e, h) in rw z (no-bit_and mask)
bit_and_below (suc k) a mask e h = omega (
  arith,
  pow-suc 2 k,
  e,
  h,
  bit_and_digit a mask,
  bit_and_below k (a / 2) (mask / 2) (omega (arith, e, pow-suc 2 k)) (omega (arith, h)),
)

pub bit_and_power : (k mask : ℕ) → mask + 1 ≡ 2 ^ k → bit_and (2 ^ k) mask ≡ 0
bit_and_power zero mask e = let z : mask ≡ 0 = omega (arith, e) in rw z refl
bit_and_power (suc k) mask e =
    let half : 2 ^ suc k / 2 ≡ 2 ^ k = omega (arith, pow-suc 2 k) in
    let rest : bit_and (2 ^ suc k / 2) (mask / 2) ≡ 0 =
      rw half (bit_and_power k (mask / 2) (omega (arith, e, pow-suc 2 k))) in
    omega (arith, pow-suc 2 k, bit_and_digit (2 ^ suc k) mask, rest)
