-- ===== src/Interface/Module.antt =====
-- include/SKL/ABIX/Interface/Module.h: the manifest of a loaded module, and its validation. A manifest
-- is `none` where it is null.
pub mod Manifest
use abix.Prelude.{
  ℕ, Bool, true, false, not, ◌&&◌, ◌==◌, ltb, if◌then◌else◌, List, [], ◌∷◌, ◌++◌, Option, none,
  some, any,
}
use abix.Util.Hash.{Hash128, eq_hash, zero_hash}
use abix.Model.Abi.{Pointer}
use abix.Metadata.Descriptor.{missing, read}
use abix.Interface.Contract.{InterfaceId, InterfaceMethod}
use abix.Interface.Ref.{has_slot}

abbrev pub abix_manifest_version : ℕ
abix_manifest_version = 1

abbrev pub abix_max_manifest_interfaces : ℕ
abix_max_manifest_interfaces = 4_096

abbrev pub abix_max_manifest_methods : ℕ
abix_max_manifest_methods = 65_536

pub record InterfaceManifestEntry : Type 0 where
  pub interface_id : InterfaceId
  pub interface_version : ℕ
  pub flags : ℕ
  pub methods : Pointer InterfaceMethod
  pub method_count : ℕ

pub record ModuleManifest : Type 0 where
  pub manifest_version : ℕ
  pub module_abi_version : ℕ
  pub flags : ℕ
  pub interface_count : ℕ
  pub interfaces : Pointer InterfaceManifestEntry
  pub extension_count : ℕ

pub data ManifestStatus : Type 0 where
  ok null_manifest unsupported_version invalid_interface invalid_binding : ManifestStatus
  too_many_interfaces too_many_methods : ManifestStatus

-- The loop over the methods, each against those before it.
unfoldable pub distinct_slots : List InterfaceMethod → List InterfaceMethod → Bool
distinct_slots seen [] = true
distinct_slots seen (m ∷ ms) =
    let rest = distinct_slots (seen ++ m ∷ []) ms in
    if any (has_slot m.slot) seen then false else rest

unfoldable pub validate_entry : InterfaceManifestEntry → ManifestStatus
validate_entry entry =
    if eq_hash entry.interface_id zero_hash
    then invalid_interface
    else if ltb abix_max_manifest_methods entry.method_count
    then too_many_methods
    else if missing entry.method_count entry.methods
    then invalid_interface
    else if distinct_slots [] (read entry.methods entry.method_count)
    then ok
    else invalid_binding

unfoldable pub validate_entries : List InterfaceManifestEntry → ManifestStatus
unfolding validate_entry
validate_entries [] = ok
validate_entries (entry ∷ entries) = elim (validate_entry entry) [
  | ok ↦ validate_entries entries
  | status ↦ status
]

unfoldable pub validate_manifest : Option ModuleManifest → ManifestStatus
validate_manifest none = null_manifest
validate_manifest (some manifest) =
    if not (manifest.manifest_version == abix_manifest_version)
    then unsupported_version
    else if ltb abix_max_manifest_interfaces manifest.interface_count
    then too_many_interfaces
    else if missing manifest.interface_count manifest.interfaces
    then invalid_interface
    else validate_entries (read manifest.interfaces manifest.interface_count)
