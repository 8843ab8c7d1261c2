-- ===== src/Metadata/Registry.antt =====
-- include/SKL/ABIX/Metadata/Registry.h: the canonical registry of types. The first `_count` elements
-- of `_entries` are the list `entries`; `Capacity` is the parameter `capacity`.
pub mod Invariant
pub mod Outcome
pub mod Kernel
use abix.Prelude.{
  ℕ, ◌+◌, ◌-◌, ◌%◌, ◌^◌, bit_and, Bool, true, false, not, ◌&&◌, ◌||◌, ◌==◌, if◌then◌else◌, List, [],
  ◌∷◌, ◌++◌, Option, none, some, length, get_elem?, get_or, find,
}
use abix.Util.Hash.{Hash128, eq_hash}
use abix.Model.Abi.{TypeId, TypeDesc, TypeLayout}
use abix.Model.Bootstrap.{
  BootRecord, BootImage, BootStatus, abix_bootstrap, bootstrap_format_version,
  bootstrap_little_endian,
}

pub data RegisterStatus : Type 0 where
  ok : RegisterStatus
  invalid_descriptor : RegisterStatus
  duplicate_type : RegisterStatus
  capacity_exceeded : RegisterStatus
  already_registered : RegisterStatus
  layout_conflict : RegisterStatus

pub record RegistryEntry : Type 0 where
  pub desc : TypeDesc
  pub layout : TypeLayout
  pub bootstrap_hash : ℕ

-- The two pointers of a bootstrap record's metadata.
pub record Bootstrap : Type 0 where
  pub desc : Option TypeDesc
  pub layout : Option TypeLayout

pub record Registry : Type 0 where
  pub entries : List RegistryEntry

-- `(align & (align - 1)) == 0` on 32 bits.
abbrev pub power_of_two : ℕ → Bool
power_of_two align = bit_and align ((align + 2 ^ 32 - 1) % 2 ^ 32) == 0

unfoldable pub valid_descriptor : Option TypeDesc → Option TypeLayout → Bool
valid_descriptor (some desc) (some layout) =
    not (desc.id.lo == 0 && desc.id.hi == 0)
    && not (layout.size == 0 || layout.align == 0)
    && power_of_two layout.align
valid_descriptor _ _ = false

unfoldable pub same_layout : Option TypeLayout → Option TypeLayout → Bool
same_layout (some lhs) (some rhs) =
    lhs.size == rhs.size && lhs.align == rhs.align && eq_hash lhs.layout_hash rhs.layout_hash
same_layout _ _ = false

abbrev pub has_id : TypeId → RegistryEntry → Bool
has_id id e = e.desc.id.lo == id.lo && e.desc.id.hi == id.hi

unfoldable pub find_by_id : Registry → TypeId → Option RegistryEntry
find_by_id r id = find (has_id id) r.entries

unfoldable pub at : Registry → ℕ → Option RegistryEntry
at r index = get_elem? r.entries index

abbrev pub size : Registry → ℕ
size r = length r.entries

-- The two records of the kernel; `sizeof` and `alignof` are those of a 64-bit target.
abbrev pub kernel_desc : ℕ → TypeDesc
kernel_desc lo = record {
  id = record { lo = lo; hi = 0x1 };
  flags = 0;
  name_offset = 0;
  layout_index = 0;
}

abbrev pub kernel_layout : ℕ → ℕ → ℕ → TypeLayout
kernel_layout size align hash = record {
  size = size;
  align = align;
  field_begin = 0;
  field_count = 0;
  layout_hash = record { lo = hash; hi = 0x1 };
}

abbrev pub entry_desc : TypeDesc
entry_desc = kernel_desc 0x5245_4745_4e54_5259

abbrev pub entry_layout : TypeLayout
entry_layout = kernel_layout 24 8 0x1

abbrev pub metadata_desc : TypeDesc
metadata_desc = kernel_desc 0x424f_4f54_5354_5241

abbrev pub metadata_layout : TypeLayout
metadata_layout = kernel_layout 16 8 0x2

abbrev pub entry_metadata : Bootstrap
entry_metadata = record { desc = some entry_desc; layout = some entry_layout }

abbrev pub metadata_metadata : Bootstrap
metadata_metadata = record { desc = some metadata_desc; layout = some metadata_layout }

abbrev pub kernel_records : List (BootRecord Bootstrap)
kernel_records =
    record {
      type_hash = 0x5245_4745_4e54_5259;
      size = 24;
      align = 8;
      metadata = some entry_metadata;
    }
    ∷ record {
      type_hash = 0x424f_4f54_5354_5241;
      size = 16;
      align = 8;
      metadata = some metadata_metadata;
    }
    ∷ []

module _ (capacity : ℕ) where
  -- After the null tests of `valid_descriptor` both pointers are there.
  unfoldable pub register_valid : Registry → TypeDesc → TypeLayout → ℕ → RegisterStatus × Registry
  register_valid r desc layout bootstrap_hash = elim (find_by_id r desc.id) [
    | some existing ↦ (
      if same_layout (some existing.layout) (some layout)
          then already_registered
          else layout_conflict,
      r,
    )
    | none ↦ if size r == capacity then (capacity_exceeded, r) else (
      ok,
      record {
        entries =
            r.entries
            ++ record { desc = desc; layout = layout; bootstrap_hash = bootstrap_hash } ∷ [];
      },
    )
  ]

  unfoldable pub register_type :
      Registry → Option TypeDesc → Option TypeLayout → ℕ → RegisterStatus × Registry
  unfolding register_valid
  register_type r (some desc) (some layout) bootstrap_hash =
      if valid_descriptor (some desc) (some layout)
      then register_valid r desc layout bootstrap_hash
      else (invalid_descriptor, r)
  register_type r _ _ bootstrap_hash = (invalid_descriptor, r)

  -- `if (metadata) registry->register_type(...)`, whose status is not read.
  unfoldable pub consume_record : Registry → ℕ → Option Bootstrap → Registry
  consume_record r type_hash none = r
  consume_record r type_hash (some m) = (register_type r m.desc m.layout type_hash).1

  unfoldable pub consume_bootstrap : List (BootRecord Bootstrap) → Registry → Registry
  unfolding consume_record
  consume_bootstrap [] r = r
  consume_bootstrap (b ∷ bs) r = consume_bootstrap bs (consume_record r b.type_hash b.metadata)

  abbrev pub kernel_image : BootImage Bootstrap Registry
  kernel_image = record {
    records = some (λ i.
        get_or kernel_records i (record { type_hash = 0; size = 0; align = 0; metadata = none }));
    count = 2;
    format_version = bootstrap_format_version;
    byte_order = bootstrap_little_endian;
    consume = some consume_bootstrap;
  }

  unfoldable pub bootstrap_self : Registry → BootStatus × Registry
  unfolding consume_bootstrap
  bootstrap_self r = abix_bootstrap kernel_image r
