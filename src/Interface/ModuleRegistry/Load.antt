-- ===== src/Interface/ModuleRegistry/Load.antt =====
-- include/SKL/ABIX/Interface/ModuleRegistry.h: what register_module adds.
use abix.Prelude.{
  ℕ, ◌+◌, ◌%◌, ◌^◌, ◌≤◌, ◌<◌, ◌≡◌, ◌≢◌, true, false, ◌++◌, map, some, length, get_elem?,
}
use abix.Metadata.Descriptor.{read}
use abix.Interface.Module.{InterfaceManifestEntry, ModuleManifest}
use abix.Interface.Lease.{loading, active}
use abix.Interface.ModuleRegistry.{
  ModuleSlot, ModuleRegistry, Loader, is_control, is_validated, binding,
}

-- The state after a module was registered in the slot `index`: what was the case before, and what is new.
pub record Registered (interface_capacity : ℕ) (r : ModuleRegistry) (l : Loader) (c : ℕ)
    (manifest : ModuleManifest) (next : ModuleRegistry) (loader : Loader) : Type 0 where
  pub valid : is_validated manifest ≡ true
  pub unknown : (k : ℕ) (s : ModuleSlot) → get_elem? r.slots k ≡ some s → is_control c s ≡ false
  pub distinct :
      (i j : ℕ) (a b : InterfaceManifestEntry)
      → i < j
      → get_elem? (read manifest.interfaces manifest.interface_count) i ≡ some a
      → get_elem? (read manifest.interfaces manifest.interface_count) j ≡ some b
      → a.interface_id ≡ b.interface_id
      → a.interface_version ≢ b.interface_version
  pub room : length r.interfaces + manifest.interface_count ≤ interface_capacity
  pub index : ℕ
  pub was_free : (old : ModuleSlot) × (get_elem? r.slots index ≡ some old) × (old.used ≡ false)
  pub recorded :
      get_elem? next.slots index
      ≡ some (record {
        control = some c;
        begin = length r.interfaces;
        count = manifest.interface_count;
        used = true;
      })
  pub others_stay : (k : ℕ) → k ≢ index → get_elem? next.slots k ≡ get_elem? r.slots k
  pub added :
      next.interfaces
      ≡ r.interfaces
        ++ map (binding loader.last_id c) (read manifest.interfaces manifest.interface_count)
  pub counted : next.module_count ≡ r.module_count + 1
  pub named : loader.ids c ≡ loader.last_id
  pub fresh : loader.last_id ≡ (l.last_id + 1) % 2 ^ 64
  pub was_loading : (l.controls c).state ≡ loading
  pub is_active : (loader.controls c).state ≡ active
