-- ===== src/Tests/Manifest.antt =====
-- include/SKL/ABIX/Interface/Module.h: a manifest with one interface.
use abix.Prelude.{◌≤◌, ◌≡◌, refl, false, some, All}
use abix.Metadata.Descriptor.{missing, read}
use abix.Model.Abi.{Pointer}
use abix.Interface.Module.{
  InterfaceManifestEntry, ModuleManifest, distinct_slots, validate_entry, validate_entries,
  validate_manifest,
}
use abix.Interface.Module.Manifest.{IsSound, validate_manifest-ok}

abbrev drawing : Pointer InterfaceManifestEntry
drawing = some (λ i. record {
  interface_id = record { lo = 1; hi = 2 };
  interface_version = 1;
  flags = 0;
  methods =
      some
        (λ j. record { signature = record { lo = 5; hi = 6 }; entry = 4096; slot = j; flags = 0 });
  method_count = 2;
})

abbrev plugin : ModuleManifest
plugin = record {
  manifest_version = 1;
  module_abi_version = 3;
  flags = 0;
  interface_count = 1;
  interfaces = drawing;
  extension_count = 0;
}

validate_manifest-ok_example :
    (plugin.manifest_version ≡ 1)
    × (plugin.interface_count ≤ 4_096)
    × (missing plugin.interface_count plugin.interfaces ≡ false)
    × All IsSound (read plugin.interfaces plugin.interface_count)
validate_manifest-ok_example =
    validate_manifest-ok plugin
      (unfold validate_manifest validate_entries validate_entry distinct_slots in refl)
