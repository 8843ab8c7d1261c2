-- ===== src/Interface/ModuleRegistry.antt =====
-- include/SKL/ABIX/Interface/ModuleRegistry.h: the registry of dynamically discovered interfaces. The
-- array `_modules` is the list `slots`, of the length ModuleCapacity, and the first `_interface_count`
-- elements of `_interfaces` are the list `interfaces`. Control blocks are numbers; the loader keeps what
-- they hold, their ids and the last id given out.

pub mod Slots
pub mod Unload
pub mod Others
pub mod Removal
pub mod Refusals
pub mod Load
pub mod Binding
use abix.Prelude.{
  ℕ, zero, suc, ◌+◌, ◌-◌, ◌%◌, ◌^◌, Bool, true, false, not, ◌&&◌, ◌||◌, ◌==◌, leb, ltb,
  if◌then◌else◌, List, [], ◌∷◌, ◌++◌, map, Option, none, some, length, get_elem?, set, take, any,
  newest as find_last_newest,
}
use abix.Util.Hash.{Hash128, eq_hash}
use abix.Model.Abi.{Pointer}
use abix.Metadata.Descriptor.{read}
use abix.Interface.Contract.{InterfaceId, InterfaceMethod, InterfaceStatus}
use abix.Interface.Ref.{InterfaceRef, reset, resolve_methods}
use abix.Interface.Module.{
  InterfaceManifestEntry, ModuleManifest, ManifestStatus, validate_manifest,
}
use abix.Interface.Lease.{
  ModuleState, active, loading, draining, unloaded, ModuleControl, activate_module, begin_unload,
  mark_unloaded, add_lease,
}

pub record ModuleInterface : Type 0 where
  pub module_id : ℕ
  pub interface_id : InterfaceId
  pub version : ℕ
  pub methods : Pointer InterfaceMethod
  pub method_count : ℕ
  pub control : Option ℕ

pub data ModuleStatus : Type 0 where
  ok already_registered invalid_manifest invalid_state capacity_exceeded : ModuleStatus
  interface_capacity_exceeded duplicate_interface not_registered busy : ModuleStatus

pub record ModuleSlot : Type 0 where
  pub control : Option ℕ
  pub begin : ℕ
  pub count : ℕ
  pub used : Bool

pub record ModuleRegistry : Type 0 where
  pub slots : List ModuleSlot
  pub interfaces : List ModuleInterface
  pub module_count : ℕ

pub record Loader : Type 0 where
  pub controls : ℕ → ModuleControl
  pub ids : ℕ → ℕ
  pub last_id : ℕ

abbrev pub put {ℓ} : {A : Type ℓ} → (ℕ → A) → ℕ → A → ℕ → A
put f k v j = if j == k then v else f j

abbrev pub is_control : ℕ → ModuleSlot → Bool
is_control c slot = slot.used && elim slot.control [ none ↦ false | some k ↦ k == c ]

abbrev pub same_version : InterfaceManifestEntry → InterfaceManifestEntry → Bool
same_version a b =
    eq_hash a.interface_id b.interface_id && a.interface_version == b.interface_version

-- The two loops over the pairs of entries.
unfoldable pub has_duplicate : List InterfaceManifestEntry → Bool
has_duplicate [] = false
has_duplicate (e ∷ es) = any (same_version e) es || has_duplicate es

-- The first free slot.
unfoldable pub free_slot : ℕ → List ModuleSlot → Option ℕ
free_slot i [] = none
free_slot i (s ∷ ss) = let rest = free_slot (i + 1) ss in if s.used then rest else some i

unfoldable pub is_validated : ModuleManifest → Bool
is_validated manifest = elim (validate_manifest (some manifest)) [
  | ManifestStatus.ok ↦ true
  | _ ↦ false
]

abbrev pub binding : ℕ → ℕ → InterfaceManifestEntry → ModuleInterface
binding id c entry = record {
  module_id = id;
  interface_id = entry.interface_id;
  version = entry.interface_version;
  methods = entry.methods;
  method_count = entry.method_count;
  control = some c;
}

-- The end of register_module, with the index of the slot.
unfoldable pub activate :
    ModuleRegistry → Loader → ℕ → ModuleManifest → ℕ → ModuleStatus × ModuleRegistry × Loader
activate r l c manifest index =
    let entries = read manifest.interfaces manifest.interface_count in
    let (activated, control) = activate_module (l.controls c) in
    let id = (l.last_id + 1) % 2 ^ 64 in
    if not activated then (ModuleStatus.invalid_state, r, l) else (
      ModuleStatus.ok,
      record {
        slots = set r.slots index (record {
          control = some c;
          begin = length r.interfaces;
          count = manifest.interface_count;
          used = true;
        });
        interfaces = r.interfaces ++ map (binding id c) entries;
        module_count = r.module_count + 1;
      },
      record { controls = put l.controls c control; ids = put l.ids c id; last_id = id },
    )

unfoldable pub register_module :
    ℕ → ModuleRegistry → Loader → ℕ → ModuleManifest → ModuleStatus × ModuleRegistry × Loader
register_module interface_capacity r l c manifest =
    if not (is_validated manifest)
    then (ModuleStatus.invalid_manifest, r, l)
    else if any (is_control c) r.slots
    then (ModuleStatus.already_registered, r, l)
    else if has_duplicate (read manifest.interfaces manifest.interface_count)
    then (ModuleStatus.duplicate_interface, r, l)
    else if r.module_count == length r.slots
    then (ModuleStatus.capacity_exceeded, r, l)
    else if ltb interface_capacity (length r.interfaces + manifest.interface_count)
    then (ModuleStatus.interface_capacity_exceeded, r, l)
    else elim (free_slot 0 r.slots) [
      | none ↦ (ModuleStatus.capacity_exceeded, r, l)
      | some index ↦ activate r l c manifest index
    ]

abbrev pub has_id : (ℕ → ℕ) → ℕ → ModuleSlot → Bool
has_id ids id slot = slot.used && elim slot.control [ none ↦ false | some k ↦ ids k == id ]

unfoldable pub find_slot : (ℕ → ℕ) → ℕ → ℕ → List ModuleSlot → Option (ℕ × ModuleSlot)
find_slot ids id i [] = none
find_slot ids id i (s ∷ ss) =
    let rest = find_slot ids id (i + 1) ss in
    if id == 0 then none else if has_id ids id s then some (i, s) else rest

-- The loop of the last element first: `left` more elements to move down by `count`, from `i` on.
unfoldable pub shift_down : ℕ → ℕ → ℕ → List ModuleInterface → List ModuleInterface
shift_down count i zero xs = xs
shift_down count i (suc left) xs =
    shift_down count (i + 1) left
      (elim (get_elem? xs (i + count)) [ none ↦ xs | some x ↦ set xs i x ])

unfoldable pub compact : ℕ → ℕ → List ModuleInterface → List ModuleInterface
compact begin count xs =
    take (length xs - count) (shift_down count begin (length xs - (begin + count)) xs)

abbrev pub rebase : ℕ → ℕ → ModuleSlot → ModuleSlot
rebase begin count other =
    if other.used && ltb begin other.begin
    then record other { begin = (other.begin + (2 ^ 32 - count)) % 2 ^ 32 }
    else other

-- The loads of the lease count in the order of time, `left` of them before the last.
unfoldable pub wait_for_idle : (ℕ → ℕ) → ℕ → Bool
wait_for_idle seen zero = seen 0 == 0
wait_for_idle seen (suc left) =
    let rest = wait_for_idle (λ i. seen (suc i)) left in if seen 0 == 0 then true else rest

-- The removal of the module of a slot that is idle.
unfoldable pub remove : ModuleRegistry → ℕ → ModuleSlot → ModuleRegistry
remove r index slot = record {
  slots =
      set (map (rebase slot.begin slot.count) r.slots) index
        (record { control = none; begin = 0; count = 0; used = false });
  interfaces = compact slot.begin slot.count r.interfaces;
  module_count = (r.module_count + (2 ^ 64 - 1)) % 2 ^ 64;
}

-- The body of unregister_module from the slot on (a slot that find_slot returns has a control block); `seen` is what wait_for_idle loads, while other
-- threads release their leases.
unfoldable pub unload :
    (ℕ → ℕ)
    → ℕ
    → ModuleRegistry
    → Loader
    → ℕ
    → ModuleSlot
    → Option ℕ
    → ModuleStatus × ModuleRegistry × Loader
unload seen max_spins r l index slot none = (ModuleStatus.not_registered, r, l)
unload seen max_spins r l index slot (some c) =
    let draining = (begin_unload (l.controls c)).1 in
    if wait_for_idle seen max_spins
    then (
      ModuleStatus.ok,
      remove r index slot,
      record l { controls = put l.controls c (mark_unloaded draining) },
    )
    else (ModuleStatus.busy, r, record l { controls = put l.controls c draining })

unfoldable pub unregister_module :
    (ℕ → ℕ) → ℕ → ModuleRegistry → Loader → ℕ → ModuleStatus × ModuleRegistry × Loader
unregister_module seen max_spins r l id = elim (find_slot l.ids id 0 r.slots) [
  | none ↦ (ModuleStatus.not_registered, r, l)
  | some (index, slot) ↦ unload seen max_spins r l index slot slot.control
]

abbrev pub offers : InterfaceId → ℕ → ModuleInterface → Bool
offers id version m = eq_hash m.interface_id id && (version == 0 || m.version == version)

-- The pointers that are written, `max` at most.
unfoldable pub find_interface : InterfaceId → ℕ → ℕ → List ModuleInterface → List ModuleInterface
find_interface id version max [] = []
find_interface id version zero (m ∷ ms) = []
find_interface id version (suc max) (m ∷ ms) =
    if offers id version m
    then m ∷ find_interface id version max ms
    else find_interface id version (suc max) ms

unfoldable pub find_first : InterfaceId → ℕ → List ModuleInterface → Option ModuleInterface
find_first id version ms = find_last_newest (offers id version) (λ m. m.version) ms
