-- ===== src/Interface/ModuleRegistry/Slots.antt =====
-- include/SKL/ABIX/Interface/ModuleRegistry.h: the slots of the registry by their positions.
use abix.Prelude.{
  ℕ, zero, suc, ◌+◌, ◌<◌, ◌≡◌, ◌≢◌, refl, sym, subst, ◌∙◌, ap, arith, false, ◌&&◌, ◌==◌, ltb, List,
  [], ◌∷◌, ◌++◌, map, Option, none, some, length, get_elem?, set, Bool-cases, inl, inr,
}
use abix.Interface.ModuleRegistry.{ModuleSlot, free_slot, find_slot, has_id, rebase}

pub get-set_same :
    {A : Type 0} (xs : List A) (i : ℕ) (old v : A)
    → get_elem? xs i ≡ some old
    → get_elem? (set xs i v) i ≡ some v
get-set_same [] i old v h = cc
get-set_same (x ∷ xs) zero old v h = refl
get-set_same (x ∷ xs) (suc i) old v h = get-set_same xs i old v h

pub get-set_other :
    {A : Type 0} (xs : List A) (i j : ℕ) (v : A) → i ≢ j → get_elem? (set xs j v) i ≡ get_elem? xs i
get-set_other [] i j v h = refl
get-set_other (x ∷ xs) zero zero v h = absurd (h refl)
get-set_other (x ∷ xs) zero (suc j) v h = refl
get-set_other (x ∷ xs) (suc i) zero v h = refl
get-set_other (x ∷ xs) (suc i) (suc j) v h = get-set_other xs i j v (λ e. h (ap suc e))

pub get-map :
    {A B : Type 0} (f : A → B) (xs : List A) (i : ℕ) (x : A)
    → get_elem? xs i ≡ some x
    → get_elem? (map f xs) i ≡ some (f x)
get-map f [] i x h = cc
get-map f (y ∷ xs) zero x h = let same : y ≡ x = cc in rw same refl
get-map f (y ∷ xs) (suc i) x h = get-map f xs i x h

get-map_back :
    {A B : Type 0} (f : A → B) (xs : List A) (i : ℕ) (y : B)
    → get_elem? (map f xs) i ≡ some y
    → (x : A) × (get_elem? xs i ≡ some x) × (y ≡ f x)
get-map_back f [] i y h = cc
get-map_back f (x ∷ xs) zero y h = (x, refl, cc)
get-map_back f (x ∷ xs) (suc i) y h = get-map_back f xs i y h

pub get-append_left :
    {A : Type 0} (xs ys : List A) (i : ℕ) → i < length xs → get_elem? (xs ++ ys) i ≡ get_elem? xs i
get-append_left [] ys i h = absurd (omega (arith, h))
get-append_left (x ∷ xs) ys zero h = refl
get-append_left (x ∷ xs) ys (suc i) h = get-append_left xs ys i (omega (arith, h))

pub get-append_right :
    {A : Type 0} (xs ys : List A) (i t : ℕ)
    → i ≡ length xs + t
    → get_elem? (xs ++ ys) i ≡ get_elem? ys t
get-append_right [] ys i t e = let same : i ≡ t = omega (arith, e) in rw same refl
get-append_right (x ∷ xs) ys zero t e = absurd (omega (arith, e))
get-append_right (x ∷ xs) ys (suc i) t e = get-append_right xs ys i t (omega (arith, e))

-- A slot that is not used.
pub free_slot-get :
    (ss : List ModuleSlot) (i j : ℕ)
    → free_slot i ss ≡ some j
    → (k : ℕ) × (old : ModuleSlot) × (j ≡ i + k) × (get_elem? ss k ≡ some old) × (old.used ≡ false)
unfolding free_slot
free_slot-get [] i j h = cc
free_slot-get (s ∷ ss) i j h = elim (Bool-cases s.used) [
  | inr spare ↦
      let here : i ≡ j = some_same (rw spare at h) in (0, s, omega (arith, here), refl, spare)
  | inl taken ↦
      let (k, old, at, found, spare) = free_slot-get ss (i + 1) j (rw taken at h) in
      (suc k, old, omega (arith, at), found, spare)
]
  where
    some_same : {a b : ℕ} → ◌≡◌ {A = Option ℕ} (some a) (some b) → a ≡ b
    some_same e = cc

-- The position of the slot that was found.
pub find_slot-get :
    (ids : ℕ → ℕ) (id : ℕ) (ss : List ModuleSlot) (i j : ℕ) (slot : ModuleSlot)
    → find_slot ids id i ss ≡ some (j, slot)
    → (k : ℕ) × (j ≡ i + k) × (get_elem? ss k ≡ some slot)
unfolding find_slot
find_slot-get ids id [] i j slot h = cc
find_slot-get ids id (s ∷ ss) i j slot h = elim (Bool-cases (id == 0)) [
  | inl null ↦ (let bad : none ≡ some (j, slot) = rw null at h in cc)
  | inr real ↦ elim (Bool-cases (has_id ids id s)) [
    | inl hit ↦
        let here : ◌≡◌ {A = Option (ℕ × ModuleSlot)} (some (i, s)) (some (j, slot)) =
          rw (real, hit) at h in
        let at : i ≡ j = cc in let same : s ≡ slot = cc in (0, omega (arith, at), ap some same)
    | inr miss ↦
        let (k, at, found) = find_slot-get ids id ss (i + 1) j slot (rw (real, miss) at h) in
        (suc k, omega (arith, at), found)
  ]
]

pub find_slot-absent :
    (ids : ℕ → ℕ) (id : ℕ) (ss : List ModuleSlot) (i : ℕ)
    → ((k : ℕ) (s : ModuleSlot) → get_elem? ss k ≡ some s → has_id ids id s ≡ false)
    → find_slot ids id i ss ≡ none
unfolding find_slot
find_slot-absent ids id [] i h = refl
find_slot-absent ids id (s ∷ ss) i h = elim (Bool-cases (id == 0)) [
  | inl null ↦ rw null refl
  | inr real ↦
      rw (real, h 0 s refl, find_slot-absent ids id ss (i + 1) (λ k t at. h (suc k) t at)) refl
]

has_id-rebase :
    (ids : ℕ → ℕ) (id begin count : ℕ) (s : ModuleSlot)
    → has_id ids id (rebase begin count s) ≡ has_id ids id s
has_id-rebase ids id begin count s = elim (Bool-cases (s.used && ltb begin s.begin)) [
  | inl moved ↦ rw moved refl
  | inr kept ↦ rw kept refl
]

-- No slot has the id after the slot of the id was cleared.
pub cleared-absent :
    (ids : ℕ → ℕ) (id index begin count : ℕ) (ss : List ModuleSlot) (slot vacant : ModuleSlot)
    → get_elem? ss index ≡ some slot
    → vacant.used ≡ false
    → ((k : ℕ) (s : ModuleSlot) → k ≢ index → get_elem? ss k ≡ some s → has_id ids id s ≡ false)
    → find_slot ids id 0 (set (map (rebase begin count) ss) index vacant) ≡ none
cleared-absent ids id index begin count ss slot vacant at spare others =
    find_slot-absent ids id (set (map (rebase begin count) ss) index vacant) 0 (λ k s found.
      elim (Bool-cases (k == index)) [
        | inl hit ↦
            let here : k ≡ index = ground (arith, hit) in
            let now =
              get-set_same (map (rebase begin count) ss) index (rebase begin count slot) vacant
                (get-map (rebase begin count) ss index slot at) in
            let there : get_elem? (set (map (rebase begin count) ss) index vacant) index ≡ some s =
              subst (λ n. get_elem? (set (map (rebase begin count) ss) index vacant) n ≡ some s)
                here found in
            let same : vacant ≡ s = some_slot (sym now ∙ there) in
            subst (λ t. has_id ids id t ≡ false) same (rw spare refl)
        | inr miss ↦
            let apart : k ≢ index = λ e. ground (arith, miss, e) in
            let (t, old, same) =
              get-map_back (rebase begin count) ss k s
                (sym (get-set_other (map (rebase begin count) ss) k index vacant apart) ∙ found) in
            subst (λ u. has_id ids id u ≡ false) (sym same)
              (has_id-rebase ids id begin count t ∙ others k t apart old)
      ])
  where
    some_slot : {a b : ModuleSlot} → ◌≡◌ {A = Option ModuleSlot} (some a) (some b) → a ≡ b
    some_slot e = cc
