-- ===== src/Interface/Ref/Slots.antt =====
-- Arrays written by slot: what stands at each slot afterwards.
use abix.Prelude.{
  ℕ, zero, suc, ◌+◌, ◌%◌, ◌^◌, ◌≤◌, ◌<◌, ◌≡◌, refl, sym, ◌∙◌, arith, true, false, Bool-cases,
  Option-cases, find as find_first, inl, inr, if◌then◌else◌, ◌==◌, leb, ltb, List, [], ◌∷◌, Option,
  none, some, length, length-set, get_or, set, All,
}
use abix.Interface.Contract.{InterfaceMethod}
use abix.Interface.Ref.{replicate, scan_slots, fill, has_slot}

-- The last method of a slot, which is the one that its entry is left with.
unfoldable pub last_at : ℕ → List InterfaceMethod → Option InterfaceMethod
last_at slot [] = none
last_at slot (m ∷ ms) = elim (last_at slot ms) [
  | some later ↦ some later
  | none ↦ if has_slot slot m then some m else none
]

-- What is written at a slot, or what stood there before.
abbrev pub written {ℓ} : {A : Type ℓ} → (InterfaceMethod → A) → Option InterfaceMethod → A → A
written f none before = before
written f (some m) before = f m

module _ {ℓ} {A : Type ℓ} where
  get_or-set :
      (xs : List A) (i j : ℕ) (v d : A)
      → i < length xs
      → get_or (set xs i v) j d ≡ (if i == j then v else get_or xs j d)
  get_or-set [] i j v d h = ground arith
  get_or-set (x ∷ xs) zero zero v d h = refl
  get_or-set (x ∷ xs) zero (suc j) v d h = ground arith
  get_or-set (x ∷ xs) (suc i) zero v d h = ground arith
  get_or-set (x ∷ xs) (suc i) (suc j) v d h = get_or-set xs i j v d (omega arith) ∙ ground arith

  pub get_or-replicate : (n j : ℕ) (d : A) → get_or (replicate n d) j d ≡ d
  get_or-replicate zero j d = refl
  get_or-replicate (suc n) zero d = refl
  get_or-replicate (suc n) (suc j) d = get_or-replicate n j d

  pub length-replicate : (n : ℕ) (d : A) → length (replicate n d) ≡ n
  length-replicate zero d = refl
  length-replicate (suc n) d = omega (arith, length-replicate n d)

  pub get_or-fill :
      (f : InterfaceMethod → A) (ms : List InterfaceMethod) (array : List A) (slot : ℕ) (d : A)
      → All (λ m. m.slot < length array) ms
      → get_or (fill f ms array) slot d ≡ written f (last_at slot ms) (get_or array slot d)
  unfolding fill last_at
  get_or-fill f [] array slot d h = refl
  get_or-fill f (m ∷ ms) array slot d h =
      let rest =
        get_or-fill f ms (set array m.slot (f m)) slot d (rw (length-set array m.slot (f m)) h.1) in
      rest ∙ go (last_at slot ms)
    where
      go :
          (later : Option InterfaceMethod)
          → written f later (get_or (set array m.slot (f m)) slot d)
            ≡ written f
                (elim later [ some l ↦ some l | none ↦ if has_slot slot m then some m else none ])
                (get_or array slot d)
      go (some later) = refl
      go none = get_or-set array m.slot slot (f m) d h.0 ∙ (elim (Bool-cases (has_slot slot m)) [
        | inl hit ↦ rw hit refl
        | inr miss ↦ rw miss refl
      ])

-- A scan that passes bounds the slots.
pub scan_slots-some :
    (max highest : ℕ) (ms : List InterfaceMethod) (h : ℕ)
    → max < 2 ^ 32
    → scan_slots max highest ms ≡ some h
    → (highest ≤ h) × All (λ m. (m.slot < max) × (m.slot < h)) ms
unfolding scan_slots
scan_slots-some max highest [] h small e = (ground arith, tt)
scan_slots-some max highest (m ∷ ms) h small e =
    let next = (m.slot + 1) % 2 ^ 32 in
    let fits : leb max m.slot ≡ false = ground arith in
    let (above, all) =
      scan_slots-some max (if ltb highest next then next else highest) ms h small (rw fits at e) in
    let low : m.slot < max = ground arith in
    let wraps : next ≡ m.slot + 1 = omega arith in
    (ground (arith, above, wraps), ((low, ground (arith, above, wraps)), all))

-- No two methods have one slot.
abbrev pub DistinctSlots : List InterfaceMethod → Type 0
DistinctSlots [] = Unit
DistinctSlots (m ∷ ms) = (last_at m.slot ms ≡ none) × DistinctSlots ms

pub last_at-find :
    (slot : ℕ) (ms : List InterfaceMethod)
    → DistinctSlots ms
    → last_at slot ms ≡ find_first (has_slot slot) ms
unfolding last_at find_first
last_at-find slot [] h = refl
last_at-find slot (m ∷ ms) h = elim (Bool-cases (has_slot slot m)) [
  | inl hit ↦
      let same : m.slot ≡ slot = ground arith in
      let none_later : last_at slot ms ≡ none = rw same at h.0 in rw (none_later, hit) refl
  | inr miss ↦ elim (Option-cases (last_at slot ms)) [
    | inl absent ↦ rw (absent, miss) (sym absent ∙ last_at-find slot ms h.1)
    | inr (later, found) ↦ rw (found, miss) (sym found ∙ last_at-find slot ms h.1)
  ]
]

pub last_at-lt :
    (slot bound : ℕ) (ms : List InterfaceMethod) (m : InterfaceMethod)
    → All (λ x. x.slot < bound) ms
    → last_at slot ms ≡ some m
    → slot < bound
unfolding last_at
last_at-lt slot bound [] m h e = absurd (cc)
last_at-lt slot bound (x ∷ xs) m h e = elim (Option-cases (last_at slot xs)) [
  | inr (later, found) ↦ last_at-lt slot bound xs later h.1 found
  | inl absent ↦
      let hit : has_slot slot x ≡ true = ground (arith, rw absent at e) in ground (arith, h.0)
]
