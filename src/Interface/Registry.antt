-- ===== src/Interface/Registry.antt =====
-- include/SKL/ABIX/Interface/Registry.h: the binding-time registry of interface implementations. The
-- first `_count` elements of `_entries` are the list `entries`, and `lookups` is the counter that
-- `find` increments, a `size_t`.
pub mod Laws
use abix.Prelude.{
  ℕ, ◌+◌, ◌%◌, ◌^◌, Bool, true, false, not, ◌&&◌, ◌||◌, ◌==◌, if◌then◌else◌, List, [], ◌∷◌, ◌++◌,
  Option, none, some, length, get_elem?, find as find_first, newest as find_last_newest, is_some,
}
use abix.Util.Hash.{Hash128, eq_hash, zero_hash}
use abix.Model.Abi.{TypeId}
use abix.Metadata.Descriptor.{missing}
use abix.Interface.Contract.{
  InterfaceId, InterfaceImplementation, InterfaceStatus, ok, invalid_table,
  duplicate_implementation, capacity_exceeded,
}

pub record InterfaceRegistry : Type 0 where
  pub entries : List InterfaceImplementation
  pub lookups : ℕ

abbrev pub is_exact : TypeId → InterfaceId → ℕ → InterfaceImplementation → Bool
is_exact concrete_type interface_id version e =
    eq_hash e.concrete_type concrete_type
    && eq_hash e.interface_id interface_id
    && e.version == version

abbrev pub is_binding : TypeId → InterfaceId → InterfaceImplementation → Bool
is_binding concrete_type interface_id e =
    eq_hash e.concrete_type concrete_type && eq_hash e.interface_id interface_id

unfoldable pub find_exact :
    InterfaceRegistry → TypeId → InterfaceId → ℕ → Option InterfaceImplementation
find_exact r concrete_type interface_id version =
    find_first (is_exact concrete_type interface_id version) r.entries

unfoldable pub find_newest :
    InterfaceRegistry → TypeId → InterfaceId → Option InterfaceImplementation
find_newest r concrete_type interface_id =
    find_last_newest (is_binding concrete_type interface_id) (λ e. e.version) r.entries

-- A version of 0 asks for the newest; the counter wraps.
unfoldable pub find :
    InterfaceRegistry
    → TypeId
    → InterfaceId
    → ℕ
    → Option InterfaceImplementation × InterfaceRegistry
find r concrete_type interface_id version =
    let counted = record r { lookups = (r.lookups + 1) % 2 ^ 64 } in
    if version == 0
    then (find_newest counted concrete_type interface_id, counted)
    else (find_exact counted concrete_type interface_id version, counted)

-- The result and what is left in `newest`.
unfoldable pub available : InterfaceRegistry → TypeId → InterfaceId → ℕ → Bool × ℕ
available r concrete_type interface_id newest = elim (find_newest r concrete_type interface_id) [
  | none ↦ (false, newest)
  | some entry ↦ (true, entry.version)
]

abbrev pub size : InterfaceRegistry → ℕ
size r = length r.entries

unfoldable pub at : InterfaceRegistry → ℕ → Option InterfaceImplementation
at r index = get_elem? r.entries index

abbrev pub lookup_count : InterfaceRegistry → ℕ
lookup_count r = r.lookups

-- The first test of `add`.
unfoldable pub invalid_implementation : InterfaceImplementation → Bool
invalid_implementation impl =
    eq_hash impl.interface_id zero_hash
    || eq_hash impl.concrete_type zero_hash
    || missing impl.method_count impl.methods

unfoldable pub add :
    ℕ → InterfaceRegistry → InterfaceImplementation → InterfaceStatus × InterfaceRegistry
add capacity r impl =
    if invalid_implementation impl
    then (invalid_table, r)
    else if is_some (find_exact r impl.concrete_type impl.interface_id impl.version)
    then (duplicate_implementation, r)
    else if size r == capacity
    then (capacity_exceeded, r)
    else (ok, record r { entries = r.entries ++ impl ∷ [] })
