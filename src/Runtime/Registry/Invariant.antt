-- ===== src/Runtime/Registry/Invariant.antt =====
-- The invariant of the versioned registry and the conditions on a row.
use abix.Prelude.{
  ℕ, ◌≤◌, ◌≡◌, refl, arith, true, Option-cases, inl, inr, List, [], ◌∷◌, ◌++◌, none, some, All,
  is_some, find, find-append,
}
use abix.Model.Abi.{TypeId}
use abix.Metadata.Descriptor.{Row, valid_row}
use abix.Metadata.Registry as Canonical
use abix.Metadata.Registry.Invariant.{
  Registers, refused, shared, conflicts, full, added, register_type-Registers,
  register_type-IsValid, find_by_id_kept_new,
}
use abix.Metadata.Registry.Invariant as Canon
use abix.Runtime.Registry.{
  ok, RegistryEntry, Registry, has_version, valid_layout, size, valid_entry,
}
use abix.Runtime.Registry.Check.{entry_of}

-- No two entries have one id and version.
abbrev pub DistinctVersions : List RegistryEntry → Type 0
DistinctVersions [] = Unit
DistinctVersions (e ∷ es) =
    (find (has_version e.descriptor.type_id e.version) es ≡ none) × DistinctVersions es

-- The registry's invariant. Each entry agrees with its own canonical records, and its id is in the
-- canonical registry, which holds no more types than there are entries.
pub record IsValid (capacity : ℕ) (r : Registry) : Type 0 where
  pub bounded : size r ≤ capacity
  pub shadow : Canonical.size r.canonical ≤ size r
  pub canonical_valid : Canon.IsValid capacity r.canonical
  pub entries_valid : All (λ e. valid_entry r.canonical e ≡ ok) r.entries
  pub distinct : DistinctVersions r.entries

-- What a row must satisfy by itself.
abbrev pub GoodRow : Row → Type 0
GoodRow row = (valid_row row ≡ true) × (valid_layout row.type ≡ true)

-- A good row's canonical records pass the canonical registry's own validation.
pub GoodRow-valid_descriptor :
    (row : Row)
    → GoodRow row
    → Canonical.valid_descriptor (some row.canonical) (some row.layout) ≡ true
unfolding valid_row valid_layout Canonical.valid_descriptor
GoodRow-valid_descriptor row (good, aligned) = ground arith

abbrev pub Extends : Canonical.Registry → Canonical.Registry → Type 0
Extends c d =
    (id : TypeId) (e : Canonical.RegistryEntry)
    → Canonical.find_by_id c id ≡ some e
    → Canonical.find_by_id d id ≡ some e

pub valid_entry-Extends :
    (c d : Canonical.Registry) (e : RegistryEntry)
    → Extends c d
    → valid_entry c e ≡ ok
    → valid_entry d e ≡ ok
unfolding valid_entry
valid_entry-Extends c d e ext h =
    elim (Option-cases (Canonical.find_by_id c e.descriptor.type_id)) [
      | inl absent ↦ absurd (ground arith)
      | inr (f, found) ↦ rw (ext _ f found) (rw found at h)
    ]

pub entries-Extends :
    (c d : Canonical.Registry) (es : List RegistryEntry)
    → Extends c d
    → All (λ e. valid_entry c e ≡ ok) es
    → All (λ e. valid_entry d e ≡ ok) es
entries-Extends c d [] ext h = tt
entries-Extends c d (e ∷ es) ext h =
    (valid_entry-Extends c d e ext h.0, entries-Extends c d es ext h.1)

-- A row's own entry is valid once its id is in the canonical registry.
pub entry_of-valid :
    (c : Canonical.Registry) (row : Row) (version : ℕ)
    → valid_row row ≡ true
    → is_some (Canonical.find_by_id c row.type.type_id) ≡ true
    → valid_entry c (entry_of row version) ≡ ok
unfolding valid_entry valid_row
entry_of-valid c row version good known = ground arith

pub has_version_symm :
    (d e : RegistryEntry)
    → has_version d.descriptor.type_id d.version e ≡ has_version e.descriptor.type_id e.version d
has_version_symm d e = ground arith

pub DistinctVersions-append :
    (es : List RegistryEntry) (e : RegistryEntry)
    → DistinctVersions es
    → find (has_version e.descriptor.type_id e.version) es ≡ none
    → DistinctVersions (es ++ e ∷ [])
unfolding find
DistinctVersions-append [] e d h = (refl, tt)
DistinctVersions-append (x ∷ es) e d h = (
  rw (find-append (has_version x.descriptor.type_id x.version) es (e ∷ []))
      (ground (arith, has_version_symm x e)),
  DistinctVersions-append es e d.1 (ground arith),
)
