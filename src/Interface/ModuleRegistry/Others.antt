-- ===== src/Interface/ModuleRegistry/Others.antt =====
-- include/SKL/ABIX/Interface/ModuleRegistry.h, unregister_module: the slots of the modules that stay.
use abix.Prelude.{
  ℕ, ◌+◌, ◌-◌, ◌^◌, ◌≤◌, ◌<◌, ◌≡◌, ◌≢◌, ◌⊎◌, refl, sym, ◌∙◌, ap, arith, true, false, ◌&&◌, ltb,
  List, ◌++◌, map, none, some, length, get_elem?, Bool-cases, inl, inr,
}
use abix.Interface.ModuleRegistry.{
  ModuleInterface, ModuleSlot, ModuleRegistry, compact, rebase, remove,
}
use abix.Interface.ModuleRegistry.Slots.{get-set_other, get-map, get-append_left, get-append_right}
use abix.Interface.ModuleRegistry.Unload.{Owns, compact_lem}

-- The slot of a module that stays: its range has the length and the control block that it had, and shows
-- what it showed.
pub record Stays (r next : ModuleRegistry) (i k : ℕ) (other : ModuleSlot) : Type 0 where
  pub slot : ModuleSlot
  pub found : get_elem? next.slots i ≡ some slot
  pub same_control : slot.control ≡ other.control
  pub same_count : slot.count ≡ other.count
  pub still_used : slot.used ≡ true
  pub shows : get_elem? next.interfaces (slot.begin + k) ≡ get_elem? r.interfaces (other.begin + k)

cut-left :
    (p m s : List ModuleInterface) (i : ℕ)
    → i < length p
    → get_elem? (p ++ s) i ≡ get_elem? (p ++ (m ++ s)) i
cut-left p m s i h = get-append_left p s i h ∙ sym (get-append_left p (m ++ s) i h)

cut-right :
    (p m s : List ModuleInterface) (i j t : ℕ)
    → i ≡ length p + t
    → j ≡ length p + length m + t
    → get_elem? (p ++ s) i ≡ get_elem? (p ++ (m ++ s)) j
cut-right p m s i j t e f =
    get-append_right p s i t e
    ∙ sym (
        get-append_right p (m ++ s) j (length m + t) (omega (arith, f))
        ∙ get-append_right m s (length m + t) t refl)

rebase-used : (begin count : ℕ) (s : ModuleSlot) → (rebase begin count s).used ≡ s.used
rebase-used begin count s = elim (Bool-cases (s.used && ltb begin s.begin)) [
  | inl moved ↦ rw moved refl
  | inr kept ↦ rw kept refl
]

rebase-control : (begin count : ℕ) (s : ModuleSlot) → (rebase begin count s).control ≡ s.control
rebase-control begin count s = elim (Bool-cases (s.used && ltb begin s.begin)) [
  | inl moved ↦ rw moved refl
  | inr kept ↦ rw kept refl
]

rebase-count : (begin count : ℕ) (s : ModuleSlot) → (rebase begin count s).count ≡ s.count
rebase-count begin count s = elim (Bool-cases (s.used && ltb begin s.begin)) [
  | inl moved ↦ rw moved refl
  | inr kept ↦ rw kept refl
]

-- Where the range of a slot begins after the removal of another.
rebase-begin :
    (begin count : ℕ) (s : ModuleSlot)
    → s.used ≡ true
    → s.begin < 2 ^ 32
    → ((s.begin ≤ begin) × ((rebase begin count s).begin ≡ s.begin))
      ⊎ ((begin < s.begin) × (count ≤ s.begin → (rebase begin count s).begin + count ≡ s.begin))
rebase-begin begin count s used small = elim (Bool-cases (ltb begin s.begin)) [
  | inl behind ↦
      inr (ground (arith, behind), λ fits. rw (used, behind) (omega (arith, fits, small)))
  | inr before ↦ inl (ground (arith, before), rw (used, before) refl)
]

compact-shows :
    (id : ℕ) (slot other : ModuleSlot) (xs : List ModuleInterface) (k : ℕ)
    → Owns id slot xs
    → other.used ≡ true
    → other.begin < 2 ^ 32
    → k < other.count
    → (other.begin + other.count ≤ slot.begin) ⊎ (slot.begin + slot.count ≤ other.begin)
    → get_elem? (compact slot.begin slot.count xs) ((rebase slot.begin slot.count other).begin + k)
      ≡ get_elem? xs (other.begin + k)
compact-shows id slot other xs k o used small within apart =
    let cut : compact slot.begin slot.count xs ≡ o.before ++ o.after =
      rw (o.parts, o.starts, o.sized) (compact_lem o.before o.mine o.after) in
    let starts = o.starts in
    let sized = o.sized in
    let whole : get_elem? (o.before ++ o.after) ((rebase slot.begin slot.count other).begin + k)
        ≡ get_elem? (o.before ++ (o.mine ++ o.after)) (other.begin + k) =
      elim (rebase-begin slot.begin slot.count other used small) [
        | inl (low, e) ↦ elim apart [
          | inl left ↦ rw e (
              cut-left o.before o.mine o.after (other.begin + k)
                (omega (arith, left, within, starts)))
          | inr right ↦ rw e (
              cut-right o.before o.mine o.after (other.begin + k) (other.begin + k)
                (other.begin + k - slot.begin) (omega (arith, low, right, starts))
                (omega (arith, low, right, starts, sized)))
        ]
        | inr (high, e) ↦ elim apart [
          | inl left ↦ absurd (omega (arith, left, high))
          | inr right ↦
              let moved = e (omega (arith, right)) in
              cut-right o.before o.mine o.after ((rebase slot.begin slot.count other).begin + k)
                (other.begin + k) (other.begin + k - (slot.begin + slot.count))
                (omega (arith, right, moved, starts)) (omega (arith, right, starts, sized))
        ]
      ] in
    rw cut (whole ∙ sym (ap (λ ys. get_elem? ys (other.begin + k)) o.parts))

pub remove-Stays :
    (r : ModuleRegistry) (id index i k : ℕ) (slot other : ModuleSlot)
    → Owns id slot r.interfaces
    → i ≢ index
    → get_elem? r.slots i ≡ some other
    → other.used ≡ true
    → other.begin < 2 ^ 32
    → (other.begin + other.count ≤ slot.begin) ⊎ (slot.begin + slot.count ≤ other.begin)
    → k < other.count
    → Stays r (remove r index slot) i k other
unfolding remove
remove-Stays r id index i k slot other owned elsewhere stands used small apart within = record {
  slot = rebase slot.begin slot.count other;
  found =
      get-set_other (map (rebase slot.begin slot.count) r.slots) i index
        (record { control = none; begin = 0; count = 0; used = false }) elsewhere
      ∙ get-map (rebase slot.begin slot.count) r.slots i other stands;
  same_control = rebase-control slot.begin slot.count other;
  same_count = rebase-count slot.begin slot.count other;
  still_used = rebase-used slot.begin slot.count other ∙ used;
  shows = compact-shows id slot other r.interfaces k owned used small within apart;
}
