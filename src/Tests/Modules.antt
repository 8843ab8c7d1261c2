-- ===== src/Tests/Modules.antt =====
-- include/SKL/ABIX/Interface/ModuleRegistry.h: two modules, the first of which is unloaded.
use abix.Prelude.{
  ℕ, ◌+◌, ◌≡◌, ◌≢◌, ◌⊎◌, refl, arith, true, false, List, [], ◌∷◌, none, some, ◌==◌, if◌then◌else◌,
  zero, suc, get_elem?, sym, subst,
}
use abix.Interface.Contract.{InterfaceMethod}
use abix.Interface.Module.{
  InterfaceManifestEntry, ModuleManifest, validate_manifest, validate_entries, validate_entry,
  distinct_slots,
}
use abix.Interface.Lease.{
  loading, active, activate_module, activate_state, ModuleControl, add_lease, sub_lease,
  begin_unload, Thread, outside, holding, Steps, stay, next, enter, count, grant, release,
}
use abix.Interface.ModuleRegistry.{
  ModuleStatus, ModuleSlot, ModuleRegistry, Loader, has_id, has_duplicate, free_slot, is_validated,
  binding, activate, register_module, find_slot, shift_down, compact, wait_for_idle, remove, unload,
  unregister_module,
}
use abix.Interface.ModuleRegistry.Unload.{Owns}
use abix.Interface.ModuleRegistry.Removal.{Unregistered, unregister_module_lem}
use abix.Interface.ModuleRegistry.Binding.{
  try_acquire_lease, bind_interface, bind_interface-unregister_module,
}

abbrev method : InterfaceMethod
method = record { signature = record { lo = 5; hi = 6 }; entry = 4_096; slot = 0; flags = 0 }

abbrev entry : ℕ → InterfaceManifestEntry
entry version = record {
  interface_id = record { lo = 1; hi = 2 };
  interface_version = version;
  flags = 0;
  methods = some (λ i. method);
  method_count = 1;
}

abbrev manifest : ModuleManifest
manifest = record {
  manifest_version = 1;
  module_abi_version = 1;
  flags = 0;
  interface_count = 2;
  interfaces = some (λ i. entry (i + 1));
  extension_count = 0;
}

abbrev vacant : ModuleSlot
vacant = record { control = none; begin = 0; count = 0; used = false }

abbrev empty : ModuleRegistry
empty = record { slots = vacant ∷ vacant ∷ []; interfaces = []; module_count = 0 }

abbrev start : Loader
start = record { controls = λ c. record { state = loading; leases = 0 }; ids = λ c. 0; last_id = 0 }

-- The modules 1 and 2, on the controls 10 and 20.
abbrev slots : List ModuleSlot
slots =
    record { control = some 10; begin = 0; count = 2; used = true }
    ∷ record { control = some 20; begin = 2; count = 2; used = true }
    ∷ []

abbrev both : ModuleRegistry
both = record {
  slots = slots;
  interfaces =
      binding 1 10 (entry 1)
      ∷ binding 1 10 (entry 2)
      ∷ binding 2 20 (entry 1)
      ∷ binding 2 20 (entry 2)
      ∷ [];
  module_count = 2;
}

abbrev running : Loader
running = record {
  controls = λ c. record { state = active; leases = 0 };
  ids = λ c. if c == 10 then 1 else if c == 20 then 2 else 0;
  last_id = 2;
}

abbrev first_slot : ModuleSlot
first_slot = record { control = some 10; begin = 0; count = 2; used = true }

found : find_slot running.ids 1 0 both.slots ≡ some (0, first_slot)
unfolding find_slot
found = refl

first-Owns : Owns 1 first_slot both.interfaces
first-Owns = record {
  before = [];
  mine = binding 1 10 (entry 1) ∷ binding 1 10 (entry 2) ∷ [];
  after = binding 2 20 (entry 1) ∷ binding 2 20 (entry 2) ∷ [];
  parts = refl;
  starts = refl;
  sized = refl;
  own = (refl, (refl, tt));
  others_before = tt;
  others_after = (other, (other, tt));
}
  where
    other : ◌≢◌ {A = ℕ} 2 1
    other e = omega (arith, e)

-- One lease is left at the first load, and none at the second.
abbrev seen : ℕ → ℕ
seen i = if i == 0 then 1 else 0

second_alone :
    (unregister_module seen 3 both running 1).1.interfaces
    ≡ binding 2 20 (entry 1) ∷ binding 2 20 (entry 2) ∷ []
unfolding unregister_module find_slot unload wait_for_idle remove compact shift_down
second_alone = refl

first_registered :
    (register_module 8 empty start 10 manifest).1.interfaces
    ≡ binding 1 10 (entry 1) ∷ binding 1 10 (entry 2) ∷ []
unfolding register_module activate is_validated validate_manifest validate_entries validate_entry
    distinct_slots has_duplicate free_slot activate_module activate_state
first_registered = refl

only_first :
    (k : ℕ) (s : ModuleSlot)
    → k ≢ 0
    → get_elem? both.slots k ≡ some s
    → has_id running.ids 1 s ≡ false
only_first zero s apart at = absurd (apart refl)
only_first (suc zero) s apart at =
    let same : record { control = some 20; begin = 2; count = 2; used = true } ≡ s = cc in
    subst (λ t. has_id running.ids 1 t ≡ false) same refl
only_first (suc (suc k)) s apart at = cc

unregister_module_example :
    let (status, left, loader) = unregister_module seen 3 both running 1 in
    ((wait_for_idle seen 3 ≡ true)
      × (status ≡ ModuleStatus.ok)
      × Unregistered both left loader 1 10 0 1 first_slot)
    ⊎ ((wait_for_idle seen 3 ≡ false) × (status ≡ ModuleStatus.busy) × (left ≡ both))
unregister_module_example =
    unregister_module_lem seen 3 both running 1 10 0 1 first_slot found refl first-Owns only_first
      refl (omega arith)

-- The binding's thread, and another that takes a lease after it and releases it while the count is loaded.
abbrev leased_once : ModuleControl
leased_once = add_lease (record { state = active; leases = 0 })

abbrev draining_twice : ModuleControl
draining_twice = (begin_unload (add_lease leased_once)).1

abbrev seen_states : ℕ → ModuleControl × List Thread
seen_states zero = (draining_twice, holding ∷ holding ∷ [])
seen_states (suc i) = (sub_lease draining_twice, holding ∷ outside ∷ [])

abbrev seen_rest : ℕ → List Thread
seen_rest zero = holding ∷ []
seen_rest (suc i) = outside ∷ []

seen_run : (i : ℕ) → Steps (draining_twice, holding ∷ holding ∷ []) (seen_states i)
seen_run zero = stay _
seen_run (suc i) = next _ _ _ (release draining_twice (holding ∷ []) []) (stay _)

seen_held : (i : ℕ) → (seen_states i).1 ≡ holding ∷ seen_rest i
seen_held zero = refl
seen_held (suc i) = refl

bound_control :
    (bind_interface 4 running (binding 1 10 (entry 1)) (some 7)).1.controls 10 ≡ leased_once
unfolding bind_interface try_acquire_lease
bound_control = refl

second_takes :
    Steps
      (
        (bind_interface 4 running (binding 1 10 (entry 1)) (some 7)).1.controls 10,
        holding ∷ outside ∷ [],
      )
      (add_lease leased_once, holding ∷ holding ∷ [])
unfolding add_lease
second_takes =
    subst (λ k. Steps (k, holding ∷ outside ∷ []) (add_lease leased_once, holding ∷ holding ∷ []))
      (sym bound_control)
      (next _ _ _ (enter leased_once (holding ∷ []) [] refl) (
        next _ _ _ (count leased_once (holding ∷ []) [])
          (next _ _ _ (grant (add_lease leased_once) (holding ∷ []) [] refl) (stay _))))

abbrev later_loader : Loader
later_loader = record running { controls = λ c. add_lease leased_once }

bind_interface_example :
    let (status, after, loader) =
      unregister_module (λ i. (seen_states i).0.leases) 3 both later_loader 1 in
    ((bind_interface 4 running (binding 1 10 (entry 1)) (some 7)).0.lease ≡ some 10)
    × (status ≡ ModuleStatus.busy)
    × (after ≡ both)
    × ((loader.controls 10).state ≢ active)
bind_interface_example =
    bind_interface-unregister_module 4 3 both running later_loader (binding 1 10 (entry 1)) (some 7)
      1 10 0 first_slot (outside ∷ []) (add_lease leased_once, holding ∷ holding ∷ []) seen_states
      seen_rest refl refl (refl, omega arith) second_takes refl found refl seen_run seen_held
