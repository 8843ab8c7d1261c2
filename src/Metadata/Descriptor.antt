-- ===== src/Metadata/Descriptor.antt =====
-- include/SKL/ABIX/Metadata/Descriptor.h: the descriptors of a module, and their validation. The
-- three type arrays of a module are walked by one index, so the loop goes over rows of them.
use abix.Prelude.{ℕ, Bool, not, ◌&&◌, ◌||◌, ◌==◌, leb, List, [], none, some, all, elems, is_some}
use abix.Util.Hash.{Hash128, eq_hash, zero_hash}
use abix.Model.Abi.{TypeId, LayoutHash, TypeDesc, TypeLayout, Pointer, CString}

pub record FieldDescriptor : Type 0 where
  pub type_id : TypeId
  pub offset : ℕ
  pub flags : ℕ

pub record TypeDescriptor : Type 0 where
  pub fields : Pointer FieldDescriptor
  pub type_id : TypeId
  pub layout_hash : LayoutHash
  pub flags : ℕ
  pub size : ℕ
  pub align : ℕ
  pub field_count : ℕ

pub record ParameterDescriptor : Type 0 where
  pub type_id : TypeId
  pub flags : ℕ

pub record FunctionDescriptor : Type 0 where
  pub parameters : Pointer ParameterDescriptor
  pub signature : Hash128
  pub return_type : TypeId
  pub parameter_count : ℕ
  pub calling_convention : ℕ
  pub flags : ℕ

pub record SymbolDescriptor : Type 0 where
  pub kind : ℕ
  pub target_index : ℕ

pub record ModuleDescriptor : Type 0 where
  pub name : CString
  pub version : CString
  pub types : Pointer TypeDescriptor
  pub canonical_types : Pointer TypeDesc
  pub canonical_layouts : Pointer TypeLayout
  pub type_count : ℕ
  pub function_count : ℕ
  pub functions : Pointer FunctionDescriptor
  pub symbols : Pointer SymbolDescriptor
  pub symbol_count : ℕ

-- `types[i]`, `canonical_types[i]` and `canonical_layouts[i]`.
pub record Row : Type 0 where
  pub type : TypeDescriptor
  pub canonical : TypeDesc
  pub layout : TypeLayout

-- What a loop up to `count` reads at a pointer.
abbrev pub read : {A : Type 0} → Pointer A → ℕ → List A
read none count = []
read (some p) count = elems count p

abbrev pub rows_of : Pointer TypeDescriptor → Pointer TypeDesc → Pointer TypeLayout → ℕ → List Row
rows_of (some t) (some c) (some l) count =
    elems count (λ i. record { type = t i; canonical = c i; layout = l i })
rows_of _ _ _ count = []

abbrev pub rows : ModuleDescriptor → List Row
rows m = rows_of m.types m.canonical_types m.canonical_layouts m.type_count

-- `count != 0 && !pointer`
abbrev pub missing : {A : Type 0} → ℕ → Pointer A → Bool
missing count p = not (count == 0) && not (is_some p)

unfoldable pub valid_field : ℕ → FieldDescriptor → Bool
valid_field size field = not (eq_hash field.type_id zero_hash) && leb field.offset size

unfoldable pub valid_row : Row → Bool
valid_row r =
    eq_hash r.type.type_id r.canonical.id
    && (r.type.size == r.layout.size
        && r.type.align == r.layout.align
        && eq_hash r.type.layout_hash r.layout.layout_hash)
    && not (eq_hash r.type.type_id zero_hash || r.type.size == 0 || r.type.align == 0)
    && not (missing r.type.field_count r.type.fields)
    && all (valid_field r.type.size) (read r.type.fields r.type.field_count)

unfoldable pub valid_function : FunctionDescriptor → Bool
valid_function f =
    not (eq_hash f.return_type zero_hash) && not (missing f.parameter_count f.parameters)

unfoldable pub valid : ModuleDescriptor → Bool
valid m =
    is_some m.name
    && is_some m.version
    && not (
        missing m.type_count m.types
        || missing m.type_count m.canonical_types
        || missing m.type_count m.canonical_layouts)
    && not (missing m.function_count m.functions)
    && not (missing m.symbol_count m.symbols)
    && all valid_row (rows m)
    && all valid_function (read m.functions m.function_count)
