-- ===== src/Util/Hash/Bits.antt =====
-- `bit_xor` and `bit_and` at variables: the laws for the lowest digit, their range, and that
-- `bit_xor` can be undone.
use Prim.Native.Nat.{digits, differ, min, bit_xor-bitwise, bit_and-bitwise}
use native.Mathlib.Nat.{pow-suc}
use abix.Prelude.{
  ℕ, zero, suc, ◌+◌, ◌*◌, ◌/◌, ◌%◌, ◌^◌, ◌≤◌, ◌<◌, ◌≡◌, refl, arith, bit_xor, bit_and,
}

abbrev xor_digits : ℕ → ℕ → ℕ → ℕ
xor_digits n a b = digits (λ b. b) differ n a b

xor_digits_fuel : (n m a b : ℕ) → a ≤ n → a ≤ m → xor_digits n a b ≡ xor_digits m a b
xor_digits_fuel zero zero a b p q = refl
xor_digits_fuel zero (suc m) zero b p q = refl
xor_digits_fuel zero (suc m) (suc a) b p q = absurd (omega arith)
xor_digits_fuel (suc n) zero zero b p q = refl
xor_digits_fuel (suc n) zero (suc a) b p q = absurd (omega arith)
xor_digits_fuel (suc n) (suc m) zero b p q = refl
xor_digits_fuel (suc n) (suc m) (suc a) b p q =
    omega (arith, xor_digits_fuel n m (suc a / 2) (b / 2) (omega arith) (omega arith))

pub zero-bit_xor : (b : ℕ) → bit_xor 0 b ≡ b
zero-bit_xor b = bit_xor-bitwise 0 b

pub bit_xor_step : (a b : ℕ) → bit_xor a b ≡ bit_xor (a / 2) (b / 2) * 2 + differ (a % 2) (b % 2)
bit_xor_step zero b = omega (arith, zero-bit_xor b, zero-bit_xor (b / 2))
bit_xor_step (suc a) b = omega (
  arith,
  bit_xor-bitwise (suc a) b,
  bit_xor-bitwise (suc a / 2) (b / 2),
  xor_digits_fuel a (suc a / 2) (suc a / 2) (b / 2) (omega arith) (omega arith),
)

-- One digit.
differ-le : (x y : ℕ) → x ≤ 1 → y ≤ 1 → differ x y ≤ 1
differ-le zero y p q = q
differ-le (suc x) zero p q = p
differ-le (suc zero) (suc zero) p q = omega arith
differ-le (suc zero) (suc (suc y)) p q = absurd (omega arith)
differ-le (suc (suc x)) (suc y) p q = absurd (omega arith)

differ_self : (x y z : ℕ) → x ≤ 1 → y ≤ 1 → z ≤ 1 → differ x z ≡ differ y z → x ≡ y
differ_self zero zero z p q r e = refl
differ_self (suc x) (suc y) zero p q r e = e
differ_self (suc zero) (suc zero) (suc z) p q r e = refl
differ_self (suc zero) (suc (suc y)) (suc z) p q r e = absurd (omega arith)
differ_self (suc (suc x)) (suc y) (suc z) p q r e = absurd (omega arith)
differ_self zero (suc y) zero p q r e = e
differ_self zero (suc zero) (suc zero) p q r e = absurd (omega arith)
differ_self zero (suc zero) (suc (suc z)) p q r e = absurd (omega arith)
differ_self zero (suc (suc y)) (suc z) p q r e = absurd (omega arith)
differ_self (suc x) zero zero p q r e = e
differ_self (suc zero) zero (suc zero) p q r e = absurd (omega arith)
differ_self (suc zero) zero (suc (suc z)) p q r e = absurd (omega arith)
differ_self (suc (suc x)) zero (suc z) p q r e = absurd (omega arith)

bit_xor_cancel_fuel : (n a b c : ℕ) → a ≤ n → b ≤ n → bit_xor a c ≡ bit_xor b c → a ≡ b
bit_xor_cancel_fuel zero a b c p q e = omega arith
bit_xor_cancel_fuel (suc n) a b c p q e =
    let low = differ-le (a % 2) (c % 2) (omega arith) (omega arith) in
    let low' = differ-le (b % 2) (c % 2) (omega arith) (omega arith) in
    let high : bit_xor (a / 2) (c / 2) ≡ bit_xor (b / 2) (c / 2) =
      omega (arith, bit_xor_step a c, bit_xor_step b c) in
    let digit : differ (a % 2) (c % 2) ≡ differ (b % 2) (c % 2) =
      omega (arith, bit_xor_step a c, bit_xor_step b c) in
    omega (
      arith,
      bit_xor_cancel_fuel n (a / 2) (b / 2) (c / 2) (omega arith) (omega arith) high,
      differ_self (a % 2) (b % 2) (c % 2) (omega arith) (omega arith) (omega arith) digit,
    )

-- Exclusive or with one number can be undone.
pub bit_xor_cancel : (a b c : ℕ) → bit_xor a c ≡ bit_xor b c → a ≡ b
bit_xor_cancel a b c e = bit_xor_cancel_fuel (a + b) a b c (omega arith) (omega arith) e

-- It stays within the digits of its arguments.
pub bit_xor-lt : (k a b : ℕ) → a < 2 ^ k → b < 2 ^ k → bit_xor a b < 2 ^ k
bit_xor-lt zero a b p q = let a0 : a ≡ 0 = omega arith in rw a0 (omega (arith, zero-bit_xor b))
bit_xor-lt (suc k) a b p q = omega (
  arith,
  pow-suc 2 k,
  bit_xor_step a b,
  differ-le (a % 2) (b % 2) (omega arith) (omega arith),
  bit_xor-lt k (a / 2) (b / 2) (omega (arith, pow-suc 2 k)) (omega (arith, pow-suc 2 k)),
)

abbrev and_digits : ℕ → ℕ → ℕ → ℕ
and_digits n a b = digits (λ b. zero) min n a b

and_digits-le : (n a b : ℕ) → and_digits n a b ≤ b
and_digits-le zero a b = omega arith
and_digits-le (suc n) zero b = omega arith
and_digits-le (suc n) (suc a) b = omega (arith, and_digits-le n (suc a / 2) (b / 2))

-- A mask bounds what it lets through.
pub bit_and-le : (a b : ℕ) → bit_and a b ≤ b
bit_and-le a b = omega (arith, bit_and-bitwise a b, and_digits-le a a b)
