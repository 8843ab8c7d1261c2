-- ===== src/Runtime/Search/Free.antt =====
-- Free slots of an array of Runtime/Search.h: how many there are, and how far away one is.
use abix.Prelude.{
  ℕ, zero, suc, ◌+◌, ◌-◌, ◌^◌, ◌≤◌, ◌<◌, ◌≡◌, ◌≢◌, ◌⊎◌, refl, sym, subst, ◌∙◌, arith, true, false,
  Bool-cases, leb, ◌==◌, if◌then◌else◌, inl, inr, Option, some,
}
use abix.Runtime.Search.{HashSlot, put, probe}
use abix.Runtime.Search.Bits.{bit_and_below, bit_and_power}
use abix.Runtime.Search.Probe.{after, IsFree, Run, here, onward}

-- How many positions lie from one to another around the array.
abbrev pub gap : ℕ → ℕ → ℕ → ℕ
gap capacity s p = if leb s p then p - s else p + capacity - s

-- How many of the first positions are taken.
unfoldable pub taken : (ℕ → HashSlot) → ℕ → ℕ
taken slots zero = 0
taken slots (suc m) =
    let rest = taken slots m in if (slots m).index_plus1 == 0 then rest else rest + 1

pub spare_slot :
    (slots : ℕ → HashSlot) (m : ℕ) → taken slots m < m → (p : ℕ) × (p < m) × IsFree slots p
unfolding taken
spare_slot slots zero h = absurd (omega (arith, h))
spare_slot slots (suc m) h = elim (Bool-cases ((slots m).index_plus1 == 0)) [
  | inl free ↦ (m, omega arith, ground (arith, free))
  | inr full ↦
      let fewer : taken slots m + 1 < suc m = rw full at h in
      let (p, low, free) = spare_slot slots m (omega (arith, fewer)) in
      (p, omega (arith, low), free)
]

taken-put_past :
    (slots : ℕ → HashSlot) (e : ℕ) (v : HashSlot) (m : ℕ)
    → m ≤ e
    → taken (put slots e v) m ≡ taken slots m
unfolding taken
taken-put_past slots e v zero h = refl
taken-put_past slots e v (suc m) h =
    let other : (m == e) ≡ false = ground (arith, h) in
    rw (other, taken-put_past slots e v m (omega (arith, h))) refl

pub taken-put :
    (slots : ℕ → HashSlot) (e : ℕ) (v : HashSlot) (m : ℕ)
    → e < m
    → IsFree slots e
    → v.index_plus1 ≢ 0
    → taken (put slots e v) m ≡ taken slots m + 1
unfolding taken
taken-put slots e v zero h free full = absurd (omega (arith, h))
taken-put slots e v (suc m) h free full = elim (Bool-cases (m == e)) [
  | inl hit ↦
      let at : m ≡ e = ground (arith, hit) in
      let now : (v.index_plus1 == 0) ≡ false = occupied v.index_plus1 full in
      let was : ((slots m).index_plus1 == 0) ≡ true =
        ground (arith, subst (λ q. IsFree slots q) (sym at) free) in
      rw (hit, now, was, taken-put_past slots e v m (omega (arith, at))) refl
  | inr miss ↦
      let low : e < m = ground (arith, miss, h) in
      let rest = taken-put slots e v m low free full in
      elim (Bool-cases ((slots m).index_plus1 == 0)) [
        | inl was ↦ rw (miss, was) rest
        | inr was ↦ rw (miss, was) (omega (arith, rest))
      ]
]
  where
    occupied : (n : ℕ) → n ≢ 0 → (n == 0) ≡ false
    occupied zero h = absurd (h refl)
    occupied (suc n) h = ground arith

module _ (capacity mask k : ℕ) (whole : mask + 1 ≡ capacity) (power : capacity ≡ 2 ^ k) where
  after-cases :
      (p : ℕ)
      → p < capacity
      → ((p ≡ mask) × (after mask p ≡ 0)) ⊎ ((p < mask) × (after mask p ≡ p + 1))
  after-cases p h = elim (Bool-cases (p == mask)) [
    | inl last ↦
        let at : p ≡ mask = ground (arith, last) in
        let top : p + 1 ≡ 2 ^ k = omega (arith, at, whole, power) in
        inl (at, rw top (bit_and_power k mask (whole ∙ power)))
    | inr inner ↦
        let low : p < mask = ground (arith, inner, h, whole) in
        inr (low, bit_and_below k (p + 1) mask (whole ∙ power) (omega (arith, low)))
  ]

  pub after-lt : (p : ℕ) → p < capacity → after mask p < capacity
  after-lt p h = elim (after-cases p h) [
    | inl (_, e) ↦ omega (arith, e, whole)
    | inr (low, e) ↦ omega (arith, e, low, whole)
  ]

  pub gap-after :
      (s p : ℕ)
      → s < capacity
      → p < capacity
      → s ≢ p
      → gap capacity (after mask s) p + 1 ≡ gap capacity s p
  gap-after s p h g apart = elim (after-cases s h) [
    | inl (last, e) ↦ rw e (wrapped last)
    | inr (low, e) ↦ rw e (stepped low)
  ]
    where
      wrapped : s ≡ mask → gap capacity 0 p + 1 ≡ gap capacity s p
      wrapped last = ground (arith, last, whole, apart, g)

      stepped : s < mask → gap capacity (s + 1) p + 1 ≡ gap capacity s p
      stepped low = ground (arith, low, whole, apart, g, h)

  pub gap-lt : (s p : ℕ) → s < capacity → p < capacity → gap capacity s p < capacity
  gap-lt s p h g = ground (arith, h, g)

-- What a probe finds.
pub record Found (capacity mask : ℕ) (slots : ℕ → HashSlot) (start : ℕ) (result : Option ℕ)
    : Type 0 where
  pub position : ℕ
  pub is_found : result ≡ some position
  pub free : IsFree slots position
  pub run : Run mask slots start position
  pub inside : position < capacity

module _ (capacity mask k : ℕ) (whole : mask + 1 ≡ capacity) (power : capacity ≡ 2 ^ k)
    (slots : ℕ → HashSlot) where
  pub probe-Found :
      (fuel s p : ℕ)
      → s < capacity
      → p < capacity
      → IsFree slots p
      → gap capacity s p < fuel
      → Found capacity mask slots s (probe mask slots fuel s)
  unfolding probe
  probe-Found zero s p h g free near = absurd (omega (arith, near))
  probe-Found (suc fuel) s p h g free near = elim (Bool-cases ((slots s).index_plus1 == 0)) [
    | inl empty ↦ rw empty (record {
      position = s;
      is_found = refl;
      free = ground (arith, empty);
      run = here s;
      inside = h;
    })
    | inr full ↦
        let busy : (slots s).index_plus1 ≢ 0 = λ z. ground (arith, full, z) in
        let apart : s ≢ p = λ same. busy (subst (λ q. IsFree slots q) (sym same) free) in
        let closer = gap-after capacity mask k whole power s p h g apart in
        let rest =
          probe-Found fuel (after mask s) p (after-lt capacity mask k whole power s h) g free
            (omega (arith, closer, near)) in
        rw full (record {
          position = rest.position;
          is_found = rest.is_found;
          free = rest.free;
          run = onward s rest.position busy rest.run;
          inside = rest.inside;
        })
  ]
