-- ===== src/Interface/Ref.antt =====
-- include/SKL/ABIX/Interface/Ref.h: a resolved interface handle, the slot cache and the slot table.
-- An object handle is `none` where it is null, an adapter is 0 where it is null, and the arrays are
-- lists of as many elements; every index that the source writes or reads is tested there.
pub mod Slots
pub mod Resolve
pub mod Cache
pub mod Table
use abix.Prelude.{
  ℕ, zero, suc, ◌+◌, ◌%◌, ◌^◌, Bool, true, false, not, ◌&&◌, ◌||◌, ◌==◌, leb, ltb, if◌then◌else◌,
  List, [], ◌∷◌, Option, none, some, get_or, set, find as find_first, is_some,
}
use abix.Util.Hash.{Hash128, eq_hash, zero_hash}
use abix.Model.Abi.{TypeId, Pointer}
use abix.Metadata.Descriptor.{missing, read}
use abix.Interface.Contract.{
  InterfaceId, InterfaceMethodHash, InterfaceMethod, InterfaceImplementation, InterfaceStatus, ok,
  invalid_table, interface_not_found, version_mismatch, method_not_found, method_capacity_exceeded,
  signature_mismatch,
}
use abix.Interface.Registry.{InterfaceRegistry, find, available}

pub record InterfaceRef : Type 0 where
  pub object : Option ℕ
  pub interface_id : InterfaceId
  pub version : ℕ
  pub method_count : ℕ
  pub entries : List ℕ
  pub signatures : List InterfaceMethodHash

abbrev pub replicate {ℓ} : {A : Type ℓ} → ℕ → A → List A
replicate zero x = []
replicate (suc n) x = x ∷ replicate n x

-- `Max == 0 ? 1 : Max`
abbrev pub slots : ℕ → ℕ
slots zero = 1
slots (suc n) = suc n

-- The first loop: none at a slot that is too large, or the highest slot and 1.
unfoldable pub scan_slots : ℕ → ℕ → List InterfaceMethod → Option ℕ
scan_slots max highest [] = some highest
scan_slots max highest (m ∷ ms) =
    let next = (m.slot + 1) % 2 ^ 32 in
    let rest = scan_slots max (if ltb highest next then next else highest) ms in
    if leb max m.slot then none else rest

-- The loop that writes one array, by the slots of the methods.
unfoldable pub fill {ℓ} :
    {A : Type ℓ} → (InterfaceMethod → A) → List InterfaceMethod → List A → List A
fill f [] array = array
fill f (m ∷ ms) array = fill f ms (set array m.slot (f m))

module _ (max : ℕ) where
  abbrev pub reset : InterfaceRef
  reset = record {
    object = none;
    interface_id = zero_hash;
    version = 0;
    method_count = 0;
    entries = replicate (slots max) 0;
    signatures = replicate (slots max) zero_hash;
  }

  unfoldable pub resolve_methods :
      InterfaceId → ℕ → Pointer InterfaceMethod → ℕ → Option ℕ → InterfaceStatus × InterfaceRef
  resolve_methods interface_id version methods method_count object =
      if not (is_some object) || missing method_count methods
      then (invalid_table, reset)
      else elim (scan_slots max 0 (read methods method_count)) [
        | none ↦ (method_capacity_exceeded, reset)
        | some highest ↦ (
          ok,
          record {
            object = object;
            interface_id = interface_id;
            version = version;
            method_count = highest;
            entries = fill (λ m. m.entry) (read methods method_count) (replicate (slots max) 0);
            signatures =
                fill (λ m. m.signature) (read methods method_count)
                  (replicate (slots max) zero_hash);
          },
        )
      ]

  -- The status, the handle, and the registry with its lookup counted.
  unfoldable pub resolve :
      InterfaceRegistry
      → Option ℕ
      → TypeId
      → InterfaceId
      → ℕ
      → InterfaceStatus × InterfaceRef × InterfaceRegistry
  resolve registry none concrete_type interface_id version = (invalid_table, reset, registry)
  resolve registry (some object) concrete_type interface_id version =
      let (found, counted) = find registry concrete_type interface_id version in
      elim found [
        | none ↦
            if (available counted concrete_type interface_id 0).0
            then (version_mismatch, reset, counted)
            else (interface_not_found, reset, counted)
        | some impl ↦
            let (status, ref) =
              resolve_methods impl.interface_id impl.version impl.methods impl.method_count
                (some object) in
            (status, ref, counted)
      ]

-- 0 is a null function pointer.
unfoldable pub method : InterfaceRef → ℕ → ℕ
method ref slot =
    if leb ref.method_count slot || get_or ref.entries slot 0 == 0
    then 0
    else get_or ref.entries slot 0

unfoldable pub bound : InterfaceRef → ℕ → Bool
bound ref slot = ltb slot ref.method_count && not (get_or ref.entries slot 0 == 0)

abbrev pub is_valid : InterfaceRef → Bool
is_valid ref = is_some ref.object

unfoldable pub signature : InterfaceRef → ℕ → InterfaceMethodHash
signature ref slot =
    if ltb slot ref.method_count then get_or ref.signatures slot zero_hash else zero_hash

unfoldable pub verify : InterfaceRef → ℕ → InterfaceMethodHash → InterfaceStatus
verify ref slot expected =
    if leb ref.method_count slot || get_or ref.entries slot 0 == 0
    then method_not_found
    else if not (eq_hash expected zero_hash)
        && not (eq_hash (get_or ref.signatures slot zero_hash) expected)
    then signature_mismatch
    else ok

-- The status, and what is left in `out`.
unfoldable pub verified_method : InterfaceRef → ℕ → InterfaceMethodHash → InterfaceStatus × ℕ
verified_method ref slot expected = elim (verify ref slot expected) [
  | ok ↦ (ok, method ref slot)
  | status ↦ (status, 0)
]

abbrev pub has_slot : ℕ → InterfaceMethod → Bool
has_slot slot m = m.slot == slot

-- The round of the second loop of `fill_slot_entries` at a slot.
unfoldable pub check_slot : List InterfaceMethod → ℕ → InterfaceMethodHash → InterfaceStatus
check_slot methods slot expected =
    if eq_hash expected zero_hash then ok else elim (find_first (has_slot slot) methods) [
      | none ↦ method_not_found
      | some found ↦
          if found.entry == 0
          then method_not_found
          else if not (eq_hash found.signature expected)
          then signature_mismatch
          else ok
    ]

unfoldable pub check_slots : List InterfaceMethod → ℕ → List InterfaceMethodHash → InterfaceStatus
check_slots methods slot [] = ok
check_slots methods slot (expected ∷ rest) = elim (check_slot methods slot expected) [
  | ok ↦ check_slots methods (suc slot) rest
  | status ↦ status
]

-- The status, and the entries and the highest slot as they are left.
unfoldable pub fill_slot_entries :
    ℕ → List ℕ → List InterfaceMethod → List InterfaceMethodHash → InterfaceStatus × List ℕ × ℕ
fill_slot_entries max entries methods expected = elim (scan_slots max 0 methods) [
  | none ↦ (method_capacity_exceeded, entries, 0)
  | some highest ↦ elim (check_slots methods 0 expected) [
    | ok ↦ (ok, fill (λ m. m.entry) methods entries, highest)
    | status ↦ (status, entries, highest)
  ]
]

pub record InterfaceSlotCache : Type 0 where
  pub object : Option ℕ
  pub method_count : ℕ
  pub entries : List ℕ

abbrev pub reset_cache : ℕ → InterfaceSlotCache
reset_cache max = record { object = none; method_count = 0; entries = replicate (slots max) 0 }

-- A failure of `fill_slot_entries` resets the cache again.
abbrev finish_cache :
    ℕ → Option ℕ → InterfaceStatus × List ℕ × ℕ → InterfaceStatus × InterfaceSlotCache
finish_cache max object (ok, entries, highest) =
    (ok, record { object = object; method_count = highest; entries = entries })
finish_cache max object (status, _, _) = (status, reset_cache max)

unfoldable pub resolve_cache :
    ℕ
    → Pointer InterfaceMethod
    → ℕ
    → Option ℕ
    → List InterfaceMethodHash
    → InterfaceStatus × InterfaceSlotCache
resolve_cache max methods method_count object expected =
    if not (is_some object) || missing method_count methods
    then (invalid_table, reset_cache max)
    else finish_cache max object
        (fill_slot_entries max (replicate (slots max) 0) (read methods method_count) expected)

unfoldable pub cached_method : ℕ → InterfaceSlotCache → ℕ → ℕ
cached_method max cache slot =
    if leb max slot || get_or cache.entries slot 0 == 0 then 0 else get_or cache.entries slot 0
