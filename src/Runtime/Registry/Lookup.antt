-- ===== src/Runtime/Registry/Lookup.antt =====
-- What the lookups of the versioned registry find.
use mathlib.Core.List.{Memᴰ}
use abix.Prelude.{
  ℕ, ◌^◌, ◌≤◌, ◌<◌, ◌≡◌, refl, ◌∙◌, arith, true, Option-cases, inl, inr, List, [], ◌∷◌, none, some,
  All, find, IsNewest, newest-IsNewest,
}
use abix.Model.Abi.{TypeId}
use abix.Metadata.Descriptor.{ModuleDescriptor, Row, rows}
use abix.Metadata.Registry as Canonical
use abix.Metadata.Registry.Invariant as Canon
use abix.Metadata.Registry.Invariant.{same_layout_refl}
use abix.Runtime.Registry.{
  ok, RegistryEntry, Registry, has_id, has_version, find_type, find_by_id, size, check_module,
  valid_entry, validate_entries, validate, register_module,
}
use abix.Runtime.Registry.Check.{
  entry_of, new_entries, Differs, DistinctRows, Passes, check_module-IsChecked,
}
use abix.Runtime.Registry.Invariant.{IsValid}
use abix.Runtime.Registry.Load.{
  register_module_cases, find_type-append, check_module-ok, register_module-IsValid, is_ok,
}

All-Mem : (P : Row → Type 0) (l : List Row) (row : Row) → All P l → Memᴰ row l → P row
All-Mem P (x ∷ l) row a (Memᴰ.head e) = rw e a.0
All-Mem P (x ∷ l) row a (Memᴰ.tail i) = All-Mem P l row a.1 i
All-Mem P [] row a i = elim i [ ]

-- A new row's own entry is the first of the new entries with its id and version.
find-new_entries :
    (r : Registry) (version : ℕ) (l : List Row) (row : Row)
    → DistinctRows l
    → Memᴰ row l
    → find_type r row.type.type_id version ≡ none
    → find (has_version row.type.type_id version) (new_entries r version l)
      ≡ some (entry_of row version)
unfolding find new_entries
find-new_entries r version (x ∷ l) row d (Memᴰ.head e) absent =
    rw e (ground (arith, rw e at absent))
find-new_entries r version (x ∷ l) row d (Memᴰ.tail i) absent =
    ground (arith, All-Mem (Differs x) l row d.0 i, find-new_entries r version l row d.1 i absent)
find-new_entries r version [] row d i absent = elim i [ ]

module _ (capacity : ℕ) (r : Registry) (m : ModuleDescriptor) (version : ℕ) where
  -- After a valid registry (of a capacity below 2 ^ 64) has loaded a module with status `ok`, the
  -- lookup of any of its types under its version finds an entry with the layout that the module
  -- declares.
  pub find_type-register_module :
      (row : Row)
      → IsValid capacity r
      → capacity < 2 ^ 64
      → (register_module capacity r m version).0 ≡ ok
      → Memᴰ row (rows m)
      → (e : RegistryEntry) × (find_type
            (register_module capacity r m version).1
            row.type.type_id
            version
          ≡ some e)
        × (Canonical.same_layout (some e.layout) (some row.layout) ≡ true)
  find_type-register_module row v small done i =
      let checked = check_module-ok capacity r m version v small done in
      let c = check_module-IsChecked capacity r m version checked in
      let (_, _, grown) = (register_module_cases capacity r m version v small).1 checked in
      let lookup = find_type-append r _ row.type.type_id version _ grown in
      elim (Option-cases (find_type r row.type.type_id version)) [
        | inr (e, found) ↦
            (e, lookup ∙ rw found, (All-Mem (Passes r version) (rows m) row c.passed i).1 e found)
        | inl absent ↦ (
          entry_of row version,
          lookup ∙ rw absent (find-new_entries r version (rows m) row c.distinct i absent),
          same_layout_refl row.layout,
        )
      ]

  -- From a valid registry (of a capacity below 2 ^ 64), loading a module, whatever its status, takes
  -- away or replaces nothing that a lookup by id and version found before.
  pub find_type-kept :
      (id : TypeId) (w : ℕ) (e : RegistryEntry)
      → IsValid capacity r
      → capacity < 2 ^ 64
      → find_type r id w ≡ some e
      → find_type (register_module capacity r m version).1 id w ≡ some e
  find_type-kept id w e v small found = elim (is_ok (check_module capacity r m version)) [
    | inl ok_status ↦
        let (_, _, grown) = (register_module_cases capacity r m version v small).1 ok_status in
        find_type-append r _ id w _ grown ∙ rw found
    | inr n ↦ rw ((register_module_cases capacity r m version v small).0 n) found
  ]

-- The lookup without a version finds an entry of the id that no other entry of the id is newer
-- than, and fails only where the id has no entry.
pub find_by_id-IsNewest :
    (r : Registry) (id : TypeId) → IsNewest (has_id id) (λ e. e.version) r.entries (find_by_id r id)
unfolding find_by_id
find_by_id-IsNewest r id = newest-IsNewest (has_id id) (λ e. e.version) r.entries

validate_entries-ok :
    (c : Canonical.Registry) (es : List RegistryEntry)
    → All (λ e. valid_entry c e ≡ ok) es
    → validate_entries c es ≡ ok
unfolding validate_entries
validate_entries-ok c [] h = refl
validate_entries-ok c (e ∷ es) h = rw (h.0, validate_entries) (validate_entries-ok c es h.1)

-- The modules loaded one after the other, each under its version, whatever the statuses.
pub load_all : ℕ → Registry → List (ModuleDescriptor × ℕ) → Registry
load_all capacity r [] = r
load_all capacity r ((m, version) ∷ ms) =
    load_all capacity (register_module capacity r m version).1 ms

load_all-IsValid :
    (capacity : ℕ) (r : Registry) (ms : List (ModuleDescriptor × ℕ))
    → capacity < 2 ^ 64
    → IsValid capacity r
    → IsValid capacity (load_all capacity r ms)
unfolding load_all
load_all-IsValid capacity r [] small v = v
load_all-IsValid capacity r ((m, version) ∷ ms) small v =
    load_all-IsValid capacity (register_module capacity r m version).1 ms small
      (register_module-IsValid capacity r m version v small)

unfoldable pub empty : Registry
unfolding Canon.empty
empty = record { entries = []; canonical = Canon.empty }

pub empty-IsValid : (capacity : ℕ) → IsValid capacity empty
unfolding empty
empty-IsValid capacity = record {
  bounded = omega arith;
  shadow = unfold Canon.empty in omega arith;
  canonical_valid = Canon.empty-IsValid capacity;
  entries_valid = tt;
  distinct = tt;
}

-- Whatever modules were loaded into a fresh registry of a capacity below 2 ^ 64, and with whatever
-- statuses, `validate` finds every entry consistent and at most `capacity` entries are stored.
pub validate-load_all :
    (capacity : ℕ) (ms : List (ModuleDescriptor × ℕ))
    → capacity < 2 ^ 64
    → (validate (load_all capacity empty ms) ≡ ok) × (size (load_all capacity empty ms) ≤ capacity)
unfolding validate
validate-load_all capacity ms small =
    let v = load_all-IsValid capacity empty ms small (empty-IsValid capacity) in
    (validate_entries-ok _ _ v.entries_valid, v.bounded)
