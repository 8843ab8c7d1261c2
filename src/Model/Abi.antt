-- ===== src/Model/Abi.antt =====
-- include/SKL/ABIX/Model/ABI.h: the records of the ABI model. A `uintN_t` field is a number; a
-- statement that needs its range says so. A pointer to an array is `none` where it is null, and
-- otherwise the function that gives the element at each index.
use Prim.Native.Char.{code}
use Prim.Native.String.{String}
use abix.Prelude.{ℕ, Bool, if◌then◌else◌, ◌==◌, List, [], ◌∷◌, Option, none, some}
use abix.Util.Hash.{Hash128, canonical_hash}

abbrev pub TypeId : Type 0
TypeId = Hash128

abbrev pub LayoutHash : Type 0
LayoutHash = Hash128

abbrev pub Pointer : Type 0 → Type 0
Pointer A = Option (ℕ → A)

-- A C string: `none` is null, and otherwise the bytes before the terminator.
abbrev pub CString : Type 0
CString = Option (List ℕ)

-- The bytes of a literal, which is ASCII.
abbrev pub codes : String → List ℕ
codes String.[] = []
codes (String.◌∷◌ c s) = code c ∷ codes s

unfoldable pub canonical_type_id : CString → TypeId
canonical_type_id none = canonical_hash [] 0x5459_5045
canonical_type_id (some name) = canonical_hash name 0x5459_5045

pub record TypeLayout : Type 0 where
  pub size : ℕ
  pub align : ℕ
  pub field_begin : ℕ
  pub field_count : ℕ
  pub layout_hash : LayoutHash

pub record TypeDesc : Type 0 where
  pub id : TypeId
  pub flags : ℕ
  pub name_offset : ℕ
  pub layout_index : ℕ

pub record Field : Type 0 where
  pub name_offset : ℕ
  pub type_id : TypeId
  pub offset : ℕ
  pub flags : ℕ
  pub bit_offset : ℕ
  pub bit_width : ℕ

abbrev prim_id : String → TypeId
prim_id name = canonical_type_id (some (codes name))

-- The descriptor of an integer type of `size` bytes; a size that is none of 1, 2, 4 and 8 is read
-- as 4.
unfoldable pub integer_type_id : ℕ → Bool → TypeId
integer_type_id size is_signed =
    if size == 1
    then (if is_signed then prim_id "prim:i8" else prim_id "prim:u8")
    else if size == 2
    then (if is_signed then prim_id "prim:i16" else prim_id "prim:u16")
    else if size == 4
    then (if is_signed then prim_id "prim:i32" else prim_id "prim:u32")
    else if size == 8
    then (if is_signed then prim_id "prim:i64" else prim_id "prim:u64")
    else (if is_signed then prim_id "prim:i32" else prim_id "prim:u32")
