-- ===== src/Model/Compat.antt =====
-- include/SKL/ABIX/Model/Compat.h: the canonical layout encoding (CLE v1), its two sinks, the
-- signature digest and the comparison of layouts. A sink's method takes the sink's state and
-- returns the new one with its Boolean result.
pub mod Encoding
pub mod Sinks
pub mod Signature
pub mod Decode
pub mod Verdict
use abix.Prelude.{
  ℕ, ◌+◌, ◌*◌, ◌/◌, ◌%◌, ◌^◌, bit_and, Bool, true, false, ◌&&◌, ◌==◌, leb, if◌then◌else◌, List, [],
  ◌∷◌, Option, none, some, set, elems,
}
use abix.Util.Hash.{
  Hash128, zero_hash, eq_hash, CanonicalState, canonical_hash_begin, canonical_hash_byte,
  canonical_hash_u32_be, canonical_hash_u64_be,
}
use abix.Model.Abi.{TypeId, TypeLayout, Field, Pointer, codes}

pub data CompatResult : Type 0 where
  identical layout_compatible map_compatible incompatible : CompatResult

abbrev pub abi_signature_domain : ℕ
abi_signature_domain = 0x4142_4953_4947_5F31

pub record LayoutContext : Type 0 where
  pub arch : ℕ
  pub os : ℕ
  pub abi : ℕ
  pub compiler : ℕ

abbrev pub canonical_layout_version : ℕ
canonical_layout_version = 1

abbrev pub canonical_layout_domain : ℕ
canonical_layout_domain = 0x4C41_594F_5554_5631

unfoldable pub canonical_layout_flags : ℕ → ℕ
canonical_layout_flags flags = bit_and flags 0xFFFF_0003

-- The methods of a sink: `k` runs only if `m` returned true.
abbrev pub Method : Type 0 → Type 0
Method S = S → S × Bool

infixl 5 ◌>>◌
abbrev pub ◌>>◌ : {S : Type 0} → Method S → Method S → Method S
◌>>◌ m k s = let (s', done) = m s in if done then k s' else (s', false)

abbrev pub succeed : {S : Type 0} → Method S
succeed s = (s, true)

abbrev pub fail : {S : Type 0} → Method S
fail s = (s, false)

-- `put_u16`, `put_u32`, `put_u64` and `put_hash` are spelled alike in the two sinks, over their
-- own `put`.
module _ {S : Type 0} (put : ℕ → Method S) where
  unfoldable pub put_u16 : ℕ → Method S
  put_u16 value = do put (value / 2 ^ 8 % 256); put (value % 256)

  unfoldable pub put_u32 : ℕ → Method S
  put_u32 value = do
    put (value / 2 ^ 24 % 256)
    put (value / 2 ^ 16 % 256)
    put (value / 2 ^ 8 % 256)
    put (value % 256)

  unfoldable pub put_u64 : ℕ → Method S
  put_u64 value = do
    put (value / 2 ^ 56 % 256)
    put (value / 2 ^ 48 % 256)
    put (value / 2 ^ 40 % 256)
    put (value / 2 ^ 32 % 256)
    put (value / 2 ^ 24 % 256)
    put (value / 2 ^ 16 % 256)
    put (value / 2 ^ 8 % 256)
    put (value % 256)

  unfoldable pub put_hash : Hash128 → Method S
  put_hash value = do put_u64 value.lo; put_u64 value.hi

  unfoldable pub put_magic : List ℕ → Method S
  put_magic [] = succeed
  put_magic (c ∷ cs) = put c >> put_magic cs

  unfoldable pub put_fields : List Field → Method S
  put_fields [] = succeed
  put_fields (f ∷ fs) = do
    put_hash f.type_id
    put_u32 f.offset
    put_u32 (canonical_layout_flags f.flags)
    put_fields fs

  -- `layout.field_count != 0 && fields == nullptr` is refused; the loop reads nothing at count 0.
  unfoldable pub put_field_list : ℕ → Pointer Field → Method S
  put_field_list count none = if count == 0 then succeed else fail
  put_field_list count (some fields) = put_fields (elems count fields)

  unfoldable pub visit_canonical_layout :
      LayoutContext → TypeId → TypeLayout → Pointer Field → Method S
  visit_canonical_layout context type_id layout fields = do
    put_magic (codes "ABIX-CLE")
    put_u16 canonical_layout_version
    put_u32 context.arch
    put_u32 context.os
    put_u32 context.abi
    put_u32 context.compiler
    put_hash type_id
    put_u32 layout.size
    put_u32 layout.align
    put_u32 layout.field_count
    put_field_list layout.field_count fields

-- The buffer `out` as the list of its bytes.
pub record LayoutByteSink : Type 0 where
  pub out : List ℕ
  pub capacity : ℕ
  pub size : ℕ

unfoldable pub byte_put : ℕ → Method LayoutByteSink
byte_put byte sink =
    if leb sink.capacity sink.size
    then (sink, false)
    else (record sink { out = set sink.out sink.size byte; size = sink.size + 1 }, true)

abbrev pub LayoutHashSink : Type 0
LayoutHashSink = CanonicalState

unfoldable pub hash_put : ℕ → Method LayoutHashSink
hash_put byte sink = (canonical_hash_byte sink byte, true)

-- The byte count, or 0 when the buffer is too small, with the buffer as it is left.
unfoldable pub encode_canonical_layout :
    LayoutContext → TypeId → TypeLayout → Pointer Field → List ℕ → ℕ → ℕ × List ℕ
encode_canonical_layout context type_id layout fields out capacity =
    let start : LayoutByteSink = record { out = out; capacity = capacity; size = 0 } in
    let (sink, done) = visit_canonical_layout byte_put context type_id layout fields start in
    (if done then sink.size else 0, sink.out)

unfoldable pub canonical_layout_hash : LayoutContext → TypeId → TypeLayout → Pointer Field → Hash128
canonical_layout_hash context type_id layout fields =
    let start = canonical_hash_begin canonical_layout_domain in
    let (state, done) = visit_canonical_layout hash_put context type_id layout fields start in
    if done then record { lo = state.lo; hi = state.hi } else zero_hash

unfoldable pub hash_parameters : CanonicalState → List TypeId → CanonicalState
hash_parameters state [] = state
hash_parameters state (p ∷ ps) =
    hash_parameters (canonical_hash_u64_be (canonical_hash_u64_be state p.lo) p.hi) ps

-- A null parameter pointer ends the loop at once, whatever the count.
unfoldable pub parameter_list : ℕ → Pointer TypeId → List TypeId
parameter_list count none = []
parameter_list count (some parameters) = elems count parameters

unfoldable pub abi_signature_hash : TypeId → Pointer TypeId → ℕ → ℕ → ℕ → Hash128
abi_signature_hash return_type parameters parameter_count calling_convention qualifiers =
    let begun = canonical_hash_begin abi_signature_domain in
    let returned =
      canonical_hash_u64_be (canonical_hash_u64_be begun return_type.lo) return_type.hi in
    let counted = canonical_hash_u64_be returned parameter_count in
    let state = hash_parameters counted (parameter_list parameter_count parameters) in
    let ended = canonical_hash_u32_be (canonical_hash_u32_be state calling_convention) qualifiers in
    record { lo = ended.lo; hi = ended.hi }

abbrev pub same_hash : Hash128 → Hash128 → Bool
same_hash lhs rhs = lhs.lo == rhs.lo && lhs.hi == rhs.hi

unfoldable pub compare : TypeId → TypeLayout → TypeId → TypeLayout → Bool → CompatResult
compare source_id source target_id target has_map =
    if same_hash source_id target_id && same_hash source.layout_hash target.layout_hash
    then identical
    else if same_hash source.layout_hash target.layout_hash
    then layout_compatible
    else if has_map
    then map_compatible
    else incompatible
