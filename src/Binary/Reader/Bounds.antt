-- ===== src/Binary/Reader/Bounds.antt =====
-- Reads inside the image, and how a property passes through a chain of reads.
use abix.Prelude.{
  ℕ, zero, suc, ◌+◌, ◌-◌, ◌*◌, ◌^◌, ◌≤◌, ◌<◌, ◌≡◌, refl, arith, Bool, true, false, ◌==◌, leb,
  Bool-cases, inl, inr, if◌then◌else◌, List, [], ◌∷◌, Option, none, some, length, get_elem?, All,
}
use abix.Binary.Reader.{
  ParseError, Parse, refused, parsed, ◌>>=◌, ◌>>◌, require, in_bounds, byte, read_le, read_u16,
  read_u32, read_u64, read_name,
}

-- No fault and an end in time; a result has the property.
pub data Meets {A : Type 0} (P : A → Type 0) : Parse A → Type 0 where
  gave_up : (e : ParseError) → Meets P (refused e)
  met : (a : A) → P a → Meets P (parsed a)

pub bind-Meets :
    {A B : Type 0} {P : A → Type 0} {Q : B → Type 0} (m : Parse A) (k : A → Parse B)
    → Meets P m
    → ((a : A) → P a → Meets Q (k a))
    → Meets Q (m >>= k)
unfolding ◌>>=◌
bind-Meets m k (gave_up e) f = gave_up e
bind-Meets m k (met a h) f = f a h

-- The same with the result's equation.
pub bind_eq-Meets :
    {A B : Type 0} {P : A → Type 0} {Q : B → Type 0} (m : Parse A) (k : A → Parse B)
    → Meets P m
    → ((a : A) → m ≡ parsed a → P a → Meets Q (k a))
    → Meets Q (m >>= k)
unfolding ◌>>=◌
bind_eq-Meets m k (gave_up e) f = gave_up e
bind_eq-Meets m k (met a h) f = f a refl h

pub require-Meets :
    {B : Type 0} {Q : B → Type 0} (b : Bool) (e : ParseError) (n : Parse B)
    → (b ≡ true → Meets Q n)
    → Meets Q (require b e >> n)
unfolding ◌>>◌ require
require-Meets true e n f = f refl
require-Meets false e n f = gave_up e

pub if-Meets :
    {A : Type 0} {P : A → Type 0} (b : Bool) (m n : Parse A)
    → (b ≡ true → Meets P m)
    → (b ≡ false → Meets P n)
    → Meets P (if b then m else n)
if-Meets true m n f g = f refl
if-Meets false m n f g = g refl

pub option-Meets :
    {A B : Type 0} {P : B → Type 0} (o : Option A) (n : Parse B) (k : A → Parse B)
    → Meets P n
    → ((a : A) → o ≡ some a → Meets P (k a))
    → Meets P (elim o [ none ↦ n | some a ↦ k a ])
option-Meets none n k g f = g
option-Meets (some a) n k g f = f a refl

pub Meets-weaken :
    {A : Type 0} {P Q : A → Type 0} (m : Parse A) → Meets P m → ((a : A) → P a → Q a) → Meets Q m
Meets-weaken m (gave_up e) f = gave_up e
Meets-weaken m (met a h) f = met a (f a h)

get_elem?-lt :
    (xs : List ℕ) (i : ℕ)
    → All (λ b. b < 256) xs
    → i < length xs
    → (b : ℕ) × (get_elem? xs i ≡ some b) × (b < 256)
get_elem?-lt [] i a h = absurd (omega (arith, h))
get_elem?-lt (x ∷ xs) zero a h = (x, refl, a.0)
get_elem?-lt (x ∷ xs) (suc i) a h = get_elem?-lt xs i a.1 (omega (arith, h))

pub in_bounds-le :
    (offset length size : ℕ) → in_bounds offset length size ≡ true → offset + length ≤ size
unfolding in_bounds
in_bounds-le offset length size h = ground arith

abbrev pub IsBytes : List ℕ → Type 0
IsBytes data_ = All (λ b. b < 256) data_

module _ (data_ : List ℕ) (bytes : IsBytes data_) where
  pub byte-Meets : (offset : ℕ) → offset < length data_ → Meets (λ b. b < 256) (byte data_ offset)
  unfolding byte
  byte-Meets offset h =
      let (b, found, small) = get_elem?-lt data_ offset bytes h in rw (byte, found) (met b small)

  pub read_le-Meets :
      (n offset : ℕ) → offset + n ≤ length data_ → Meets (λ v. v < 256 ^ n) (read_le data_ n offset)
  unfolding read_le
  read_le-Meets zero offset h = met 0 (omega arith)
  read_le-Meets (suc n) offset h =
      bind-Meets (byte data_ offset) _ (byte-Meets offset (omega (arith, h))) (λ low p.
        bind-Meets (read_le data_ n (offset + 1)) _
          (read_le-Meets n (offset + 1) (omega (arith, h)))
          (λ high q. met (low + 256 * high) (omega (arith, p, q))))

  pub read_u16-Meets :
      (offset : ℕ) → offset + 2 ≤ length data_ → Meets (λ v. v < 2 ^ 16) (read_u16 data_ offset)
  unfolding read_u16
  read_u16-Meets offset h = read_le-Meets 2 offset h

  pub read_u32-Meets :
      (offset : ℕ) → offset + 4 ≤ length data_ → Meets (λ v. v < 2 ^ 32) (read_u32 data_ offset)
  unfolding read_u32
  read_u32-Meets offset h = read_le-Meets 4 offset h

  pub read_u64-Meets :
      (offset : ℕ) → offset + 8 ≤ length data_ → Meets (λ v. v < 2 ^ 64) (read_u64 data_ offset)
  unfolding read_u64
  read_u64-Meets offset h = read_le-Meets 8 offset h

  pub read_name-Meets :
      (left cursor : ℕ)
      → cursor + left ≤ length data_
      → Meets (λ name. length name ≤ left) (read_name data_ left cursor)
  unfolding read_name
  read_name-Meets zero cursor h = met [] (omega arith)
  read_name-Meets (suc left) cursor h =
      bind-Meets (byte data_ cursor) _ (byte-Meets cursor (omega (arith, h))) (λ c p.
        if-Meets (c == 0) _ _ (λ _. met [] (omega arith))
          (λ _.
            bind-Meets (read_name data_ left (cursor + 1)) _
              (read_name-Meets left (cursor + 1) (omega (arith, h)))
              (λ rest q. met (c ∷ rest) (omega (arith, q)))))

  -- The loops with a cursor and an end.
  pub read_until-Meets :
      (cursor end : ℕ)
      → end ≤ length data_
      → Meets (λ name. length name ≤ length data_) (read_name data_ (end - cursor) cursor)
  unfolding read_name
  read_until-Meets cursor end h = elim (Bool-cases (leb cursor end)) [
    | inl within ↦
        Meets-weaken (read_name data_ (end - cursor) cursor)
          (read_name-Meets (end - cursor) cursor (ground (arith, within, h)))
          (λ name q. omega (arith, q, h))
    | inr past ↦
        let none_left : end - cursor ≡ 0 = ground (arith, past) in rw none_left (no_bytes cursor)
  ]
    where
      no_bytes : (c : ℕ) → Meets (λ name. length name ≤ length data_) (read_name data_ 0 c)
      no_bytes c = met [] (omega arith)
