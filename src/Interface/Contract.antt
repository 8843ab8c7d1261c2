-- ===== src/Interface/Contract.antt =====
-- include/SKL/ABIX/Interface/Contract.h: the records of an interface contract and the hashes that
-- identify interfaces and methods.
pub mod Decimal
pub mod Text
pub mod Order
use abix.Prelude.{
  ℕ, zero, suc, ◌+◌, ◌/◌, ◌%◌, Bool, true, false, if◌then◌else◌, ◌==◌, ltb, List, [], ◌∷◌, ◌++◌,
  Option, none, some, elems,
}
use abix.Util.Hash.{
  Hash128, CanonicalState, canonical_hash_begin, canonical_hash_byte, canonical_hash_bytes,
}
use abix.Model.Abi.{TypeId, Pointer, CString, codes}

abbrev pub InterfaceId : Type 0
InterfaceId = Hash128

abbrev pub InterfaceMethodHash : Type 0
InterfaceMethodHash = Hash128

pub record InterfaceMethod : Type 0 where
  pub signature : InterfaceMethodHash
  pub entry : ℕ
  pub slot : ℕ
  pub flags : ℕ

pub record InterfaceImplementation : Type 0 where
  pub interface_id : InterfaceId
  pub concrete_type : TypeId
  pub methods : Pointer InterfaceMethod
  pub method_count : ℕ
  pub version : ℕ
  pub flags : ℕ

abbrev pub interface_identity_domain : ℕ
interface_identity_domain = 0x494E_5445_5246_4143

abbrev pub method_signature_domain : ℕ
method_signature_domain = 0x5349_474E_4154_5552

pub record InterfaceMethodKey : Type 0 where
  pub signature : InterfaceMethodHash
  pub slot : ℕ

pub data InterfaceStatus : Type 0 where
  ok : InterfaceStatus
  invalid_table : InterfaceStatus
  duplicate_implementation : InterfaceStatus
  capacity_exceeded : InterfaceStatus
  interface_not_found : InterfaceStatus
  version_mismatch : InterfaceStatus
  method_not_found : InterfaceStatus
  method_capacity_exceeded : InterfaceStatus
  signature_mismatch : InterfaceStatus

-- The loop that fills `digits`, the last digit first, with one unit of fuel for each of the 20
-- places of the array.
unfoldable pub fill_digits : ℕ → ℕ → List ℕ
fill_digits zero value = []
fill_digits (suc places) value =
    let rest = fill_digits places (value / 10) in
    if value == 0 then [] else (b'0' + value % 10) ∷ rest

unfoldable pub digits : ℕ → List ℕ
digits value = if value == 0 then b'0' ∷ [] else fill_digits 20 value

-- The loop that counts down: the last digit stored is hashed first.
unfoldable pub hash_digits : CanonicalState → List ℕ → CanonicalState
hash_digits state [] = state
hash_digits state (d ∷ ds) = canonical_hash_byte (hash_digits state ds) d

unfoldable pub interface_hash_u64 : CanonicalState → ℕ → CanonicalState
interface_hash_u64 state value = hash_digits state (digits value)

-- The loop over a name up to its terminator, which a null name skips.
unfoldable pub hash_name : CanonicalState → CString → CanonicalState
hash_name state none = state
hash_name state (some name) = canonical_hash_bytes state name

unfoldable pub hash_signatures : CanonicalState → List InterfaceMethodHash → CanonicalState
hash_signatures state [] = state
hash_signatures state (s ∷ ss) =
    let low = interface_hash_u64 (canonical_hash_byte state b':') s.lo in
    hash_signatures (interface_hash_u64 (canonical_hash_byte low b':') s.hi) ss

unfoldable pub interface_id : CString → ℕ → List InterfaceMethodHash → InterfaceId
interface_id name version signatures =
    let begun = canonical_hash_begin interface_identity_domain in
    let tagged = canonical_hash_bytes begun (codes "ABIX-INTERFACE:") in
    let named = canonical_hash_byte (hash_name tagged name) b':' in
    let state = hash_signatures (interface_hash_u64 named version) signatures in
    record { lo = state.lo; hi = state.hi }

-- The inner loop of the insertion sort; `sorted[j - 1]`, ..., `sorted[0]` are the list.
unfoldable pub insert_key : InterfaceMethodKey → List InterfaceMethodKey → List InterfaceMethodKey
insert_key key [] = key ∷ []
insert_key key (last ∷ before) =
    let moved = insert_key key before in
    if ltb key.slot last.slot then last ∷ moved else key ∷ last ∷ before

unfoldable pub sort_keys :
    List InterfaceMethodKey → List InterfaceMethodKey → List InterfaceMethodKey
sort_keys sorted [] = sorted
sort_keys sorted (key ∷ keys) = sort_keys (insert_key key sorted) keys

-- `signatures[i] = sorted[i].signature`, from the last entry to the first.
unfoldable pub signatures_of :
    List InterfaceMethodKey → List InterfaceMethodHash → List InterfaceMethodHash
signatures_of [] signatures = signatures
signatures_of (key ∷ before) signatures = signatures_of before (key.signature ∷ signatures)

-- The overload for methods in any order.
unfoldable pub interface_id_of_keys : CString → ℕ → List InterfaceMethodKey → InterfaceId
interface_id_of_keys name version methods =
    interface_id name version (signatures_of (sort_keys [] methods) [])

unfoldable pub hash_types : CanonicalState → List TypeId → CanonicalState
hash_types state [] = state
hash_types state (t ∷ ts) = hash_types (interface_hash_u64 (interface_hash_u64 state t.lo) t.hi) ts

unfoldable pub method_signature : CString → TypeId → List TypeId → InterfaceMethodHash
method_signature name return_type parameters =
    let named = hash_name (canonical_hash_begin method_signature_domain) name in
    let state = hash_types named (return_type ∷ parameters) in
    record { lo = state.lo; hi = state.hi }
