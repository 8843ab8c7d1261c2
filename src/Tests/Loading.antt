-- ===== src/Tests/Loading.antt =====
-- include/SKL/ABIX/Runtime/Registry.h: a module with one type, loaded into a small registry.
use mathlib.Core.List.{Memᴰ}
use abix.Prelude.{◌⊎◌, ◌≤◌, ◌≡◌, ◌≢◌, refl, arith, true, [], ◌∷◌, ◌++◌, none, some, find, newest}
use abix.Model.Abi.{TypeId, TypeDesc, TypeLayout, codes}
use abix.Metadata.Descriptor.{
  TypeDescriptor, ModuleDescriptor, Row, rows, valid, valid_row, valid_field, valid_function,
}
use abix.Metadata.Registry as Canonical
use abix.Runtime.Registry.{
  ok, RegistryEntry, Registry, find_type, find_by_id, size, valid_layout, known_type, check_types,
  known_fields, known_functions, check_module, register_module, validate, valid_entry,
  parse_version, module_version,
}
use abix.Runtime.Registry.Check.{entry_of, new_entries}
use abix.Runtime.Registry.Invariant.{IsValid}
use abix.Runtime.Registry.Load.{register_module_lem}
use abix.Runtime.Registry.Lookup.{
  find_type-register_module, find_type-kept, load_all, empty, empty-IsValid, validate-load_all,
}

abbrev point_id : TypeId
point_id = record { lo = 11; hi = 12 }

abbrev point_layout : TypeLayout
point_layout = record {
  size = 8;
  align = 4;
  field_begin = 0;
  field_count = 0;
  layout_hash = record { lo = 21; hi = 22 };
}

abbrev point_desc : TypeDesc
point_desc = record { id = point_id; flags = 0; name_offset = 0; layout_index = 0 }

abbrev point_type : TypeDescriptor
point_type = record {
  fields = none;
  type_id = point_id;
  layout_hash = record { lo = 21; hi = 22 };
  flags = 0;
  size = 8;
  align = 4;
  field_count = 0;
}

abbrev points : ModuleDescriptor
points = record {
  name = some (codes "points");
  version = some (codes "12.3");
  types = some (λ i. point_type);
  canonical_types = some (λ i. point_desc);
  canonical_layouts = some (λ i. point_layout);
  type_count = 1;
  function_count = 0;
  functions = none;
  symbols = none;
  symbol_count = 0;
}

program : Unit {0}
unfolding register_module known_fields known_functions known_type valid valid_row valid_field
    valid_function check_types find_type find_by_id find newest valid_layout Canonical.find_by_id
    Canonical.register_type Canonical.valid_descriptor Canonical.same_layout empty parse_version
program = tt

points_version : module_version points ≡ 12
unfolding program
points_version = refl

points_load : (register_module 4 empty points 12).0 ≡ ok
unfolding program
points_load = refl

points_pass : check_module 4 empty points 12 ≡ ok
unfolding program
points_pass = refl

register_module_example :
    ((check_module 4 empty points 12 ≢ ok)
      × (register_module 4 empty points 12 ≡ (check_module 4 empty points 12, empty)))
    ⊎ ((check_module 4 empty points 12 ≡ ok)
        × ((register_module 4 empty points 12).0 ≡ ok)
        × IsValid 4 (register_module 4 empty points 12).1
        × ((register_module 4 empty points 12).1.entries
            ≡ empty.entries ++ new_entries empty 12 (rows points)))
register_module_example = register_module_lem 4 empty points 12 (empty-IsValid 4) (omega arith)

abbrev point_row : Row
point_row = record { type = point_type; canonical = point_desc; layout = point_layout }

find_type-register_module_example :
    (e : RegistryEntry) × (find_type (register_module 4 empty points 12).1 point_id 12 ≡ some e)
    × (Canonical.same_layout (some e.layout) (some point_layout) ≡ true)
find_type-register_module_example =
    find_type-register_module 4 empty points 12 point_row (empty-IsValid 4) (omega arith)
      points_load (Memᴰ.head refl)

-- A registry that holds the type under version 12.
abbrev loaded : Registry
loaded = record {
  entries = entry_of point_row 12 ∷ [];
  canonical = record {
    entries = record { desc = point_desc; layout = point_layout; bootstrap_hash = 0 } ∷ [];
  };
}

loaded-IsValid : IsValid 4 loaded
unfolding program valid_entry
loaded-IsValid = record {
  bounded = omega arith;
  shadow = omega arith;
  canonical_valid = record {
    bounded = omega arith;
    valid_entries = (refl, tt);
    distinct = (refl, tt);
  };
  entries_valid = (refl, tt);
  distinct = (refl, tt);
}

find_type-kept_example :
    find_type (register_module 4 loaded points 13).1 point_id 12 ≡ some (entry_of point_row 12)
find_type-kept_example =
    find_type-kept 4 loaded points 13 point_id 12 (entry_of point_row 12) loaded-IsValid
      (omega arith) (unfold program in refl)

validate-load_all_example :
    (validate (load_all 4 empty ((points, 12) ∷ (points, 13) ∷ [])) ≡ ok)
    × (size (load_all 4 empty ((points, 12) ∷ (points, 13) ∷ [])) ≤ 4)
validate-load_all_example = validate-load_all 4 ((points, 12) ∷ (points, 13) ∷ []) (omega arith)
