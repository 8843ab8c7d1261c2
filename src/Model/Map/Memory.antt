-- ===== src/Model/Map/Memory.antt =====
-- Ranges of bytes that lie inside an object.
use abix.Prelude.{
  ℕ, zero, suc, ◌+◌, ◌-◌, ◌≤◌, ◌<◌, ◌≡◌, refl, arith, true, List, [], ◌∷◌, ◌++◌, Option, none, some,
  length, length-append, take, drop,
}
use abix.Model.Abi.{TypeLayout, Field, Pointer}
use abix.Model.Map.{Converter, PlanStatus, offset_of, valid_field, valid_range, load, store}

pub length-drop : (n : ℕ) (xs : List ℕ) → length (drop n xs) ≡ length xs - n
length-drop zero xs = omega arith
length-drop (suc n) [] = omega arith
length-drop (suc n) (x ∷ xs) = omega (arith, length-drop n xs)

pub length-take : (n : ℕ) (xs : List ℕ) → n ≤ length xs → length (take n xs) ≡ n
length-take zero xs h = refl
length-take (suc n) [] h = absurd (omega (arith, h))
length-take (suc n) (x ∷ xs) h = omega (arith, length-take n xs (omega (arith, h)))

pub load-inside :
    (source : List ℕ) (offset n : ℕ)
    → offset + n ≤ length source
    → (bytes : List ℕ) × (load source offset n ≡ some bytes) × (length bytes ≡ n)
unfolding load
load-inside source offset n h = (
  take n (drop offset source),
  ground (arith, h),
  length-take n (drop offset source) (omega (arith, length-drop offset source, h)),
)

pub store-inside :
    (target : List ℕ) (offset : ℕ) (bytes : List ℕ)
    → offset + length bytes ≤ length target
    → (written : List ℕ) × (store target offset bytes ≡ some written)
      × (length written ≡ length target)
unfolding store
store-inside target offset bytes h = (
  take offset target ++ (bytes ++ drop (offset + length bytes) target),
  ground (arith, h),
  omega (
    arith,
    length-append (take offset target) (bytes ++ drop (offset + length bytes) target),
    length-append bytes (drop (offset + length bytes) target),
    length-take offset target (omega (arith, h)),
    length-drop (offset + length bytes) target,
    h,
  ),
)

-- What the loop keeps: no access outside of an object, and the target's length.
abbrev pub Stays : {C : Type 0} → ℕ → Option (PlanStatus × List ℕ × C) → Type 0
Stays n none = ⊥
Stays n (some (status, target, context)) = length target ≡ n

-- A converter that writes within the bytes it is given.
abbrev pub StaysInside : {C : Type 0} → Option (Converter C) → Type 0
StaysInside none = Unit
StaysInside {C} (some run) =
    (s t : List ℕ) (auxiliary : ℕ) (context : C) → length (run s t auxiliary context).1 ≡ length t

pub valid_range-le :
    (index : ℕ) (layout : TypeLayout) (fields : Pointer Field) (n : ℕ)
    → valid_range index layout fields n ≡ true
    → offset_of fields index + n ≤ layout.size
unfolding valid_range
valid_range-le index layout fields n h = ground arith

pub valid_field-lt :
    (index : ℕ) (layout : TypeLayout) (fields : Pointer Field)
    → valid_field index layout fields ≡ true
    → offset_of fields index < layout.size
unfolding valid_field
valid_field-lt index layout fields h = ground arith
