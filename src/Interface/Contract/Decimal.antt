-- ===== src/Interface/Contract/Decimal.antt =====
-- The decimal text that an interface hash is fed for a number.
use abix.Prelude.{
  ℕ, zero, suc, ◌+◌, ◌-◌, ◌*◌, ◌/◌, ◌%◌, ◌^◌, ◌≤◌, ◌<◌, ◌≡◌, ◌≢◌, refl, ◌∙◌, arith, true, false,
  inl, inr, Bool-cases, if◌then◌else◌, ◌==◌, leb, ltb, List, [], ◌∷◌, ◌++◌, some, All, All-append,
}
use abix.Util.Hash.{CanonicalState, canonical_hash_bytes}
use abix.Util.Hash.Bytes.{canonical_hash_bytes-append}
use abix.Runtime.Registry.{parse_digits, parse_version}
use abix.Interface.Contract.{fill_digits, digits, hash_digits, interface_hash_u64}

-- The decimal text of a number below 10 ^ n.
pub decimal_of : ℕ → ℕ → List ℕ
decimal_of zero value = []
decimal_of (suc n) value =
    let front = decimal_of n (value / 10) in
    if ltb value 10 then (b'0' + value) ∷ [] else front ++ (b'0' + value % 10) ∷ []

-- That of a `uint64_t`, which is below 10 ^ 20.
unfoldable pub decimal : ℕ → List ℕ
decimal value = decimal_of 20 value

-- The number that a text of decimal digits denotes.
unfoldable pub decimal_value : ℕ → List ℕ → ℕ
decimal_value value [] = value
decimal_value value (d ∷ ds) = decimal_value (value * 10 + (d - b'0')) ds

hash_digits-fill_digits :
    (s : CanonicalState) (n value : ℕ)
    → value ≢ 0
    → hash_digits s (fill_digits n value) ≡ canonical_hash_bytes s (decimal_of n value)
unfolding hash_digits fill_digits canonical_hash_bytes decimal_of
hash_digits-fill_digits s zero value h = refl
hash_digits-fill_digits s (suc n) value h =
    let rest = hash_digits-fill_digits s n (value / 10) in
    elim (Bool-cases (ltb value 10)) [
      | inl one ↦
          let small : value / 10 ≡ 0 = ground arith in
          let digit : value % 10 ≡ value = ground arith in
          let positive : (value == 0) ≡ false = ground arith in
          rw (one, small, digit, positive) (last n)
      | inr more ↦
          let large : value / 10 ≢ 0 = ground arith in
          let positive : (value == 0) ≡ false = ground arith in
          rw (more, positive, canonical_hash_bytes-append s (decimal_of n (value / 10)), rest large)
            refl
    ]
  where
    last :
        (m : ℕ)
        → hash_digits s ((b'0' + value) ∷ fill_digits m 0)
          ≡ canonical_hash_bytes s ((b'0' + value) ∷ [])
    last zero = refl
    last (suc m) = refl

-- The digit loop feeds the hash the decimal text of the number.
pub interface_hash_u64-decimal :
    (s : CanonicalState) (value : ℕ)
    → interface_hash_u64 s value ≡ canonical_hash_bytes s (decimal value)
unfolding interface_hash_u64 digits decimal
interface_hash_u64-decimal s value = elim (Bool-cases (value == 0)) [
  | inl null ↦
      let none_left : value ≡ 0 = ground arith in
      rw none_left (unfold hash_digits canonical_hash_bytes decimal_of in refl)
  | inr some_left ↦ rw some_left (hash_digits-fill_digits s 20 value (ground arith))
]

decimal_value-append :
    (acc : ℕ) (xs : List ℕ) (d : ℕ)
    → decimal_value acc (xs ++ d ∷ []) ≡ decimal_value acc xs * 10 + (d - b'0')
unfolding decimal_value
decimal_value-append acc [] d = refl
decimal_value-append acc (x ∷ xs) d = decimal_value-append (acc * 10 + (x - b'0')) xs d

decimal_value-decimal_of :
    (n value : ℕ) → value < 10 ^ n → decimal_value 0 (decimal_of n value) ≡ value
unfolding decimal_value decimal_of
decimal_value-decimal_of zero value h = omega arith
decimal_value-decimal_of (suc n) value h = elim (Bool-cases (ltb value 10)) [
  | inl one ↦ rw one (omega arith)
  | inr more ↦
      let rest = decimal_value-decimal_of n (value / 10) (omega arith) in
      rw (more, decimal_value-append 0 (decimal_of n (value / 10)), rest) (omega arith)
]

abbrev IsDigit : ℕ → Type 0
IsDigit d = (b'0' ≤ d) × (d ≤ b'9')

decimal_of-IsDigit : (n value : ℕ) → All IsDigit (decimal_of n value)
unfolding decimal_of
decimal_of-IsDigit zero value = tt
decimal_of-IsDigit (suc n) value = elim (Bool-cases (ltb value 10)) [
  | inl one ↦ rw one ((omega arith, ground arith), tt)
  | inr more ↦ rw more (
      All-append IsDigit (decimal_of n (value / 10)) _ (decimal_of-IsDigit n (value / 10))
        ((omega arith, omega arith), tt))
]

-- On digits, `parse_version` reads the same number, reduced to 32 bits.
parse_digits-decimal_value :
    (acc : ℕ) (xs : List ℕ)
    → All IsDigit xs
    → parse_digits (acc % 2 ^ 32) xs ≡ decimal_value acc xs % 2 ^ 32
unfolding parse_digits decimal_value
parse_digits-decimal_value acc [] h = refl
parse_digits-decimal_value acc (x ∷ xs) h =
    let low : leb b'0' x ≡ true = ground arith in
    let high : leb x b'9' ≡ true = ground arith in
    let wrap : (acc % 2 ^ 32 * 10 + (x - b'0')) % 2 ^ 32 ≡ (acc * 10 + (x - b'0')) % 2 ^ 32 =
      omega arith in
    rw (low, high, wrap) (parse_digits-decimal_value (acc * 10 + (x - b'0')) xs h.1)

-- The digits that are hashed for a 64-bit number are decimal digits that denote it.
pub interface_hash_u64_lem :
    (s : CanonicalState) (value : ℕ)
    → value < 2 ^ 64
    → (interface_hash_u64 s value ≡ canonical_hash_bytes s (decimal value))
      × (decimal_value 0 (decimal value) ≡ value)
interface_hash_u64_lem s value small = (
  interface_hash_u64-decimal s value,
  unfold decimal in decimal_value-decimal_of 20 value (omega arith),
)

-- The decimal text of a 32-bit version is parsed back to the version.
pub parse_version-decimal :
    (value : ℕ) → value < 2 ^ 32 → parse_version (some (decimal value)) ≡ value
unfolding decimal parse_version
parse_version-decimal value small =
    parse_digits-decimal_value 0 (decimal_of 20 value) (decimal_of-IsDigit 20 value)
    ∙ rw (decimal_value-decimal_of 20 value (omega arith)) (omega arith)
