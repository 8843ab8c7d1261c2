-- ===== src/Tests/Canonical.antt =====
-- include/SKL/ABIX/Metadata/Registry.h and Model/Bootstrap.h on small registries.
use abix.Prelude.{◌≡◌, inl, refl, true, [], ◌∷◌, some, find}
use abix.Model.Bootstrap.{BootStatus}
use abix.Metadata.Registry.{
  Registry, RegistryEntry, find_by_id, valid_descriptor, same_layout, register_type, entry_desc,
  entry_layout, metadata_desc, metadata_layout, bootstrap_self,
}
use abix.Metadata.Registry.Invariant.{
  IsValid, empty, empty-IsValid, register_type-IsValid, find_by_id-register_type,
}
use abix.Metadata.Registry.Outcome.{Answer, register_type-Answer}
use abix.Metadata.Registry.Kernel.{kernel_entry, bootstrap_self-full}

-- A registry that holds the first kernel type.
abbrev one : Registry
one = record { entries = kernel_entry entry_desc entry_layout 0 ∷ [] }

register_type-Answer_example :
    Answer 4 one 9
      (some metadata_desc)
      (some metadata_layout)
      (register_type 4 one (some metadata_desc) (some metadata_layout) 9)
register_type-Answer_example =
    register_type-Answer 4 one 9 (some metadata_desc) (some metadata_layout)

register_type-IsValid_example :
    IsValid 4 (register_type 4 empty (some metadata_desc) (some metadata_layout) 9).1
register_type-IsValid_example =
    register_type-IsValid 4 empty (some metadata_desc) (some metadata_layout) 9 (empty-IsValid 4)

program : Unit {0}
unfolding register_type find_by_id find valid_descriptor same_layout
program = tt

found_after : find_by_id one entry_desc.id ≡ some (kernel_entry entry_desc entry_layout 0)
unfolding program
found_after = refl

find_by_id-register_type_example :
    (e : RegistryEntry) × (find_by_id
        (register_type 4 one (some metadata_desc) (some metadata_layout) 9).1
        metadata_desc.id
      ≡ some e)
    × (same_layout (some e.layout) (some metadata_layout) ≡ true)
find_by_id-register_type_example =
    find_by_id-register_type 4 one metadata_desc metadata_layout 9
      (inl (unfold register_type valid_descriptor find_by_id find in refl))

-- A registry of capacity 1 that some other type fills.
abbrev filled : Registry
filled = record {
  entries = kernel_entry (record entry_desc { id = record { lo = 1; hi = 1 } }) entry_layout 0 ∷ [];
}

bootstrap_self-full_example : bootstrap_self 1 filled ≡ (BootStatus.ok, filled)
bootstrap_self-full_example =
    bootstrap_self-full 1 filled refl (unfold program in refl) (unfold program in refl)
