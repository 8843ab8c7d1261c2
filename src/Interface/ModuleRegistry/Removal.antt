-- ===== src/Interface/ModuleRegistry/Removal.antt =====
-- include/SKL/ABIX/Interface/ModuleRegistry.h: unregister_module as a whole.
use abix.Prelude.{
  ℕ, ◌^◌, ◌<◌, ◌≤◌, ◌+◌, ◌≡◌, ◌≢◌, refl, sym, subst, arith, true, false, ◌==◌, none, some,
  get_elem?, Bool-cases, inl, inr, ◌⊎◌,
}
use abix.Interface.ModuleRegistry.{
  ModuleStatus, ModuleSlot, ModuleRegistry, Loader, find_slot, wait_for_idle, remove, unload,
  unregister_module, put, has_id,
}
use abix.Interface.Lease.{ModuleControl, unloaded, begin_unload, mark_unloaded}
use abix.Interface.ModuleRegistry.Slots.{find_slot-get, cleared-absent}
use abix.Interface.ModuleRegistry.Unload.{without, Owns, compact-without, unregister_module-unload}
use abix.Interface.ModuleRegistry.Others.{Stays, remove-Stays}

-- What is left after the removal of a module of the id, on the control block.
pub record Unregistered (r next : ModuleRegistry) (loader : Loader) (id c index left : ℕ)
    (slot : ModuleSlot) : Type 0 where
  pub others_stay : next.interfaces ≡ without id r.interfaces
  pub unknown : find_slot loader.ids id 0 next.slots ≡ none
  pub counted : next.module_count ≡ left
  pub others_shown :
      (i k : ℕ) (other : ModuleSlot)
      → i ≢ index
      → get_elem? r.slots i ≡ some other
      → other.used ≡ true
      → other.begin < 2 ^ 32
      → (other.begin + other.count ≤ slot.begin) ⊎ (slot.begin + slot.count ≤ other.begin)
      → k < other.count
      → Stays r next i k other
  pub is_unloaded : (loader.controls c).state ≡ unloaded

-- A registered module whose slot owns its range of the array and is the only slot of the id, in a registry
-- that counts it. If its leases come to 0 in time: it is unregistered with ok, the array holds the interfaces
-- of all other modules, in their order, and none of its own, no slot has its id any more, the slot of every
-- other module whose range did not meet that of the module keeps its control block and its length and shows
-- at each place of its range the interface that it showed, wherever the range moved, the registry counts one
-- module less, and the control block is unloaded. The leases that are left leave the registry as it is,
-- with busy.
pub unregister_module_lem :
    (seen : ℕ → ℕ) (max_spins : ℕ) (r : ModuleRegistry) (l : Loader) (id c index left : ℕ)
    (slot : ModuleSlot)
    → find_slot l.ids id 0 r.slots ≡ some (index, slot)
    → slot.control ≡ some c
    → Owns id slot r.interfaces
    → ((k : ℕ) (s : ModuleSlot)
        → k ≢ index
        → get_elem? r.slots k ≡ some s
        → has_id l.ids id s ≡ false)
    → r.module_count ≡ left + 1
    → left + 1 < 2 ^ 64
    → let (status, next, loader) = unregister_module seen max_spins r l id in
      ((wait_for_idle seen max_spins ≡ true)
        × (status ≡ ModuleStatus.ok)
        × Unregistered r next loader id c index left slot)
      ⊎ ((wait_for_idle seen max_spins ≡ false) × (status ≡ ModuleStatus.busy) × (next ≡ r))
unfolding unload remove mark_unloaded
unregister_module_lem seen max_spins r l id c index left slot found at owned alone count fits =
    subst
      (λ (out : ModuleStatus × ModuleRegistry × Loader).
        ((wait_for_idle seen max_spins ≡ true)
          × (out.0 ≡ ModuleStatus.ok)
          × Unregistered r out.1 out.2 id c index left slot)
        ⊎ ((wait_for_idle seen max_spins ≡ false) × (out.0 ≡ ModuleStatus.busy) × (out.1 ≡ r)))
      (sym (unregister_module-unload seen max_spins r l id c index slot found at))
      (elim (Bool-cases (wait_for_idle seen max_spins)) [
        | inl idle ↦ inl (idle, rw idle refl, rw idle removed)
        | inr leased ↦ inr (leased, rw leased refl, rw leased refl)
      ])
  where
    vacant : ModuleSlot
    vacant = record { control = none; begin = 0; count = 0; used = false }

    shut : ModuleControl
    shut = mark_unloaded (begin_unload (l.controls c)).1

    removed :
        Unregistered r
          (remove r index slot)
          (record l { controls = put l.controls c shut })
          id
          c
          index
          left
          slot
    removed =
        let (k, e, stands) = find_slot-get l.ids id r.slots 0 index slot found in
        let same : k ≡ index = omega (arith, e) in
        let own_slot : get_elem? r.slots index ≡ some slot =
          subst (λ n. get_elem? r.slots n ≡ some slot) same stands in
        let here : (c == c) ≡ true = ground arith in
        record {
          others_stay = compact-without id slot r.interfaces owned;
          unknown =
              cleared-absent l.ids id index slot.begin slot.count r.slots slot vacant own_slot refl
                alone;
          others_shown = λ i k other. remove-Stays r id index i k slot other owned;
          counted = omega (arith, count, fits);
          is_unloaded = rw here refl;
        }
