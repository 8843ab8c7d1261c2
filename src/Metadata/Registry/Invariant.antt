-- ===== src/Metadata/Registry/Invariant.antt =====
-- The invariant of the canonical registry, and what each registration does.
use abix.Prelude.{
  ℕ, ◌≤◌, ◌≡◌, ◌≢◌, ◌⊎◌, inl, inr, refl, arith, true, false, ◌==◌, Bool-cases, Option-cases, List,
  [], ◌∷◌, ◌++◌, Option, none, some, length-append, All, All-append, find, find-append,
}
use abix.Model.Abi.{TypeId, TypeDesc, TypeLayout}
use abix.Metadata.Registry.{
  RegisterStatus, ok, invalid_descriptor, capacity_exceeded, already_registered, layout_conflict,
  RegistryEntry, Registry, valid_descriptor, same_layout, has_id, find_by_id, size, register_valid,
  register_type,
}

-- No two entries have one id.
abbrev pub DistinctIds : List RegistryEntry → Type 0
DistinctIds [] = Unit
DistinctIds (e ∷ es) = (find (has_id e.desc.id) es ≡ none) × DistinctIds es

abbrev pub IsValidEntry : RegistryEntry → Type 0
IsValidEntry e = valid_descriptor (some e.desc) (some e.layout) ≡ true

pub record IsValid (capacity : ℕ) (r : Registry) : Type 0 where
  pub bounded : size r ≤ capacity
  pub valid_entries : All IsValidEntry r.entries
  pub distinct : DistinctIds r.entries

has_id_symm : (d e : RegistryEntry) → has_id d.desc.id e ≡ has_id e.desc.id d
has_id_symm d e = ground arith

DistinctIds-append :
    (es : List RegistryEntry) (e : RegistryEntry)
    → DistinctIds es
    → find (has_id e.desc.id) es ≡ none
    → DistinctIds (es ++ e ∷ [])
unfolding find
DistinctIds-append [] e d h = (refl, tt)
DistinctIds-append (x ∷ es) e d h = (
  rw (find-append (has_id x.desc.id) es (e ∷ [])) (ground (arith, has_id_symm x e)),
  DistinctIds-append es e d.1 (ground arith),
)

unfoldable pub empty : Registry
empty = record { entries = [] }

pub empty-IsValid : (capacity : ℕ) → IsValid capacity empty
unfolding empty
empty-IsValid capacity = record { bounded = omega arith; valid_entries = tt; distinct = tt }

pub same_layout_refl : (l : TypeLayout) → same_layout (some l) (some l) ≡ true
unfolding same_layout
same_layout_refl l = ground arith

module _ (r : Registry) (desc : TypeDesc) (layout : TypeLayout) (h : ℕ) where
  abbrev entry : RegistryEntry
  entry = record { desc = desc; layout = layout; bootstrap_hash = h }

  found_new :
      find_by_id r desc.id ≡ none
      → (e : RegistryEntry) × (find_by_id (record { entries = r.entries ++ entry ∷ [] }) desc.id
          ≡ some e)
        × (same_layout (some e.layout) (some layout) ≡ true)
  unfolding find_by_id find
  found_new absent = (
    entry,
    rw (find-append (has_id desc.id) r.entries (entry ∷ [])) (ground arith),
    same_layout_refl layout,
  )

  found_old :
      (id : TypeId) (e : RegistryEntry)
      → find_by_id r id ≡ some e
      → find_by_id (record { entries = r.entries ++ entry ∷ [] }) id ≡ some e
  unfolding find_by_id
  found_old id e f = rw (find-append (has_id id) r.entries (entry ∷ [])) (ground arith)

module _ (capacity : ℕ) (r : Registry) where
  -- What a registration may do, with all that leads to it.
  pub data Registers (desc : TypeDesc) (layout : TypeLayout) (h : ℕ)
      : RegisterStatus × Registry → Type 0 where
    refused :
        valid_descriptor (some desc) (some layout) ≡ false
        → Registers desc layout h (invalid_descriptor, r)
    shared :
        (e : RegistryEntry)
        → find_by_id r desc.id ≡ some e
        → same_layout (some e.layout) (some layout) ≡ true
        → Registers desc layout h (already_registered, r)
    conflicts :
        (e : RegistryEntry)
        → find_by_id r desc.id ≡ some e
        → same_layout (some e.layout) (some layout) ≡ false
        → Registers desc layout h (layout_conflict, r)
    full :
        find_by_id r desc.id ≡ none
        → size r ≡ capacity
        → Registers desc layout h (capacity_exceeded, r)
    added :
        valid_descriptor (some desc) (some layout) ≡ true
        → find_by_id r desc.id ≡ none
        → size r ≢ capacity
        → Registers desc layout h (
          ok,
          record {
            entries = r.entries ++ record { desc = desc; layout = layout; bootstrap_hash = h } ∷ [];
          },
        )

  -- By the branches.
  pub register_type-Registers :
      (desc : TypeDesc) (layout : TypeLayout) (h : ℕ)
      → Registers desc layout h (register_type capacity r (some desc) (some layout) h)
  unfolding register_type
  register_type-Registers desc layout h =
      elim (Bool-cases (valid_descriptor (some desc) (some layout))) [
        | inr bad ↦ rw bad (refused bad)
        | inl good ↦ elim (Option-cases (find_by_id r desc.id)) [
          | inr (e, found) ↦ elim (Bool-cases (same_layout (some e.layout) (some layout))) [
            | inl same ↦ rw (good, found, register_valid, same) (shared e found same)
            | inr other ↦ rw (good, found, register_valid, other) (conflicts e found other)
          ]
          | inl absent ↦ elim (Bool-cases (size r == capacity)) [
            | inl at_end ↦ rw (good, absent, register_valid, at_end) (full absent (ground arith))
            | inr room ↦ rw (good, absent, register_valid, room) (added good absent (ground arith))
          ]
        ]
      ]

  Registers-IsValid :
      {desc : TypeDesc} {layout : TypeLayout} {h : ℕ} {out : RegisterStatus × Registry}
      → Registers desc layout h out
      → IsValid capacity r
      → IsValid capacity out.1
  Registers-IsValid (refused _) v = v
  Registers-IsValid (shared _ _ _) v = v
  Registers-IsValid (conflicts _ _ _) v = v
  Registers-IsValid (full _ _) v = v
  Registers-IsValid {desc} {layout} {h} (added good absent room) v =
      let e : RegistryEntry = record { desc = desc; layout = layout; bootstrap_hash = h } in
      record {
        bounded = omega (arith, v.bounded, length-append r.entries (e ∷ []));
        valid_entries = All-append IsValidEntry r.entries (e ∷ []) v.valid_entries (good, tt);
        distinct = DistinctIds-append r.entries e v.distinct (unfold find_by_id in absent);
      }

  -- Every registration keeps the registry within its capacity, its entries valid and their ids
  -- distinct, whatever pointers it is given.
  pub register_type-IsValid :
      (desc : Option TypeDesc) (layout : Option TypeLayout) (h : ℕ)
      → IsValid capacity r
      → IsValid capacity (register_type capacity r desc layout h).1
  register_type-IsValid (some desc) (some layout) h v =
      Registers-IsValid (register_type-Registers desc layout h) v
  register_type-IsValid none layout h v = unfold register_type in v
  register_type-IsValid (some desc) none h v = unfold register_type in v

  abbrev Finds : Registry → TypeDesc → TypeLayout → Type 0
  Finds q desc layout =
      (e : RegistryEntry) × (find_by_id q desc.id ≡ some e)
      × (same_layout (some e.layout) (some layout) ≡ true)

  pub find_by_id_kept_new :
      (desc : TypeDesc) (layout : TypeLayout) (h : ℕ)
      → (((register_type capacity r (some desc) (some layout) h).0 ≡ ok)
            ⊎ ((register_type capacity r (some desc) (some layout) h).0 ≡ already_registered)
          → Finds (register_type capacity r (some desc) (some layout) h).1 desc layout)
        × ((id : TypeId) (e : RegistryEntry)
            → find_by_id r id ≡ some e
            → find_by_id (register_type capacity r (some desc) (some layout) h).1 id ≡ some e)
  find_by_id_kept_new desc layout h = go (register_type-Registers desc layout h)
    where
      go :
          {out : RegisterStatus × Registry}
          → Registers desc layout h out
          → ((out.0 ≡ ok) ⊎ (out.0 ≡ already_registered) → Finds out.1 desc layout)
            × ((id : TypeId) (e : RegistryEntry)
                → find_by_id r id ≡ some e
                → find_by_id out.1 id ≡ some e)
      go (refused _) = (λ s. elim s [ inl e ↦ cc | inr e ↦ cc ], λ id e f. f)
      go (shared e f s) = (λ _. (e, f, s), λ id e f. f)
      go (conflicts _ _ _) = (λ s. elim s [ inl e ↦ cc | inr e ↦ cc ], λ id e f. f)
      go (full _ _) = (λ s. elim s [ inl e ↦ cc | inr e ↦ cc ], λ id e f. f)
      go (added good absent room) =
          (λ _. found_new r desc layout h absent, λ id e f. found_old r desc layout h id e f)

  -- A registration that reports `ok` or `already_registered` leaves the type findable with the
  -- layout that was registered.
  pub find_by_id-register_type :
      (desc : TypeDesc) (layout : TypeLayout) (h : ℕ)
      → ((register_type capacity r (some desc) (some layout) h).0 ≡ ok)
        ⊎ ((register_type capacity r (some desc) (some layout) h).0 ≡ already_registered)
      → (e : RegistryEntry) × (find_by_id
            (register_type capacity r (some desc) (some layout) h).1
            desc.id
          ≡ some e)
        × (same_layout (some e.layout) (some layout) ≡ true)
  find_by_id-register_type desc layout h done = (find_by_id_kept_new desc layout h).0 done

  -- Whatever the status of a registration, every id that was found before still finds the same entry.
  pub find_by_id-kept :
      (desc : TypeDesc) (layout : TypeLayout) (h : ℕ) (id : TypeId) (e : RegistryEntry)
      → find_by_id r id ≡ some e
      → find_by_id (register_type capacity r (some desc) (some layout) h).1 id ≡ some e
  find_by_id-kept desc layout h id e found = (find_by_id_kept_new desc layout h).1 id e found
