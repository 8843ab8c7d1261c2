-- ===== src/Interface/Registry/Laws.antt =====
-- The invariant of the interface registry, and what its lookups find after an addition.
use abix.Prelude.{
  ℕ, ◌≤◌, ◌≡◌, ◌≢◌, ◌⊎◌, inl, inr, refl, arith, Bool, true, false, ◌==◌, if◌then◌else◌, Bool-cases,
  Option-cases, List, [], ◌∷◌, ◌++◌, Option, none, some, length-append, All, All-append,
  find as find_first, find-append, is_some, IsNewest, newest-IsNewest,
}
use abix.Model.Abi.{TypeId}
use abix.Interface.Contract.{InterfaceId, InterfaceImplementation, ok}
use abix.Interface.Registry.{
  InterfaceRegistry, is_exact, is_binding, find_exact, find_newest, find, available, size,
  invalid_implementation, add,
}

-- No two entries are one implementation's versions alike.
abbrev pub Distinct : List InterfaceImplementation → Type 0
Distinct [] = Unit
Distinct (e ∷ es) =
    (find_first (is_exact e.concrete_type e.interface_id e.version) es ≡ none) × Distinct es

pub record IsValid (capacity : ℕ) (r : InterfaceRegistry) : Type 0 where
  pub bounded : size r ≤ capacity
  pub tables : All (λ e. invalid_implementation e ≡ false) r.entries
  pub distinct : Distinct r.entries

is_exact_symm :
    (d e : InterfaceImplementation)
    → is_exact d.concrete_type d.interface_id d.version e
      ≡ is_exact e.concrete_type e.interface_id e.version d
is_exact_symm d e = ground arith

Distinct-append :
    (es : List InterfaceImplementation) (e : InterfaceImplementation)
    → Distinct es
    → find_first (is_exact e.concrete_type e.interface_id e.version) es ≡ none
    → Distinct (es ++ e ∷ [])
unfolding find_first
Distinct-append [] e d h = (refl, tt)
Distinct-append (x ∷ es) e d h = (
  rw (find-append (is_exact x.concrete_type x.interface_id x.version) es (e ∷ []))
      (ground (arith, is_exact_symm x e)),
  Distinct-append es e d.1 (ground arith),
)

module _ (capacity : ℕ) (r : InterfaceRegistry) (impl : InterfaceImplementation) where
  -- An addition either reports an error and changes nothing, or reports `ok` and appends the
  -- implementation, which is then valid, new, and had room.
  pub add-cases :
      (((add capacity r impl).0 ≢ ok) × ((add capacity r impl).1 ≡ r))
      ⊎ ((add capacity r impl ≡ (ok, record r { entries = r.entries ++ impl ∷ [] }))
          × (invalid_implementation impl ≡ false)
          × (find_exact r impl.concrete_type impl.interface_id impl.version ≡ none)
          × (size r ≢ capacity))
  unfolding add
  add-cases = elim (Bool-cases (invalid_implementation impl)) [
    | inl bad ↦ inl (rw bad (λ e. cc, refl))
    | inr good ↦
        elim (Option-cases (find_exact r impl.concrete_type impl.interface_id impl.version)) [
          | inr (e, found) ↦ inl (rw (good, found) (λ e. cc, refl))
          | inl absent ↦ elim (Bool-cases (size r == capacity)) [
            | inl full ↦ inl (rw (good, absent, full) (λ e. cc, refl))
            | inr room ↦ inr (rw (good, absent, room) refl, good, absent, ground arith)
          ]
        ]
  ]

  exact :
      find_exact r impl.concrete_type impl.interface_id impl.version ≡ none
      → find_first (is_exact impl.concrete_type impl.interface_id impl.version) r.entries ≡ none
  unfolding find_exact
  exact h = h

  -- Every addition, whatever its status, keeps the registry within its capacity, its tables valid
  -- and its (type, interface, version) triples distinct.
  pub add-IsValid : IsValid capacity r → IsValid capacity (add capacity r impl).1
  add-IsValid v = elim add-cases [
    | inl (_, same) ↦ rw same v
    | inr (added, good, absent, room) ↦ rw added record {
      bounded = omega (arith, length-append r.entries (impl ∷ []), v.bounded);
      tables =
          All-append (λ e. invalid_implementation e ≡ false) r.entries (impl ∷ []) v.tables
            (good, tt);
      distinct = Distinct-append r.entries impl v.distinct (exact absent);
    }
  ]

  grown : InterfaceRegistry
  grown = record r { entries = r.entries ++ impl ∷ [] }

  find-grown :
      (t : TypeId) (i : InterfaceId) (w : ℕ)
      → (w == 0) ≡ false
      → (find grown t i w).0 ≡ (
          if is_some (find r t i w).0
          then (find r t i w).0
          else if is_exact t i w impl
          then some impl
          else none)
  unfolding find find_exact grown find_first
  find-grown t i w h = rw h (find-append (is_exact t i w) r.entries (impl ∷ []))

  find-absent :
      (t : TypeId) (i : InterfaceId) (w : ℕ)
      → (w == 0) ≡ false
      → (find r t i w).0 ≡ find_exact r t i w
  unfolding find find_exact
  find-absent t i w h = rw h refl

  pub find_cases :
      ((add capacity r impl).0 ≡ ok
        → impl.version ≢ 0
        → (find (add capacity r impl).1 impl.concrete_type impl.interface_id impl.version).0
          ≡ some impl)
      × ((t : TypeId) (i : InterfaceId) (w : ℕ) (e : InterfaceImplementation)
          → w ≢ 0
          → (find r t i w).0 ≡ some e
          → (find (add capacity r impl).1 t i w).0 ≡ some e)
  unfolding grown
  find_cases = elim add-cases [
    | inl (refused, same) ↦ (λ h n. absurd (refused h), λ t i w e n found. rw same found)
    | inr (added, _, absent, _) ↦ (
      λ h n.
          let versioned : (impl.version == 0) ≡ false = ground arith in
          rw
            (
              added,
              find-grown impl.concrete_type impl.interface_id impl.version versioned,
              find-absent impl.concrete_type impl.interface_id impl.version versioned,
              absent,
            )
            (ground arith),
      λ t i w e n found.
          let versioned : (w == 0) ≡ false = ground arith in
          rw (added, find-grown t i w versioned, found) refl,
    )
  ]

module _ (capacity : ℕ) (r : InterfaceRegistry) (impl : InterfaceImplementation) where
  -- After an addition with status `ok`, the lookup of the implementation's version, other than 0,
  -- finds it.
  pub find-add :
      (add capacity r impl).0 ≡ ok
      → impl.version ≢ 0
      → (find (add capacity r impl).1 impl.concrete_type impl.interface_id impl.version).0
        ≡ some impl
  find-add done versioned = (find_cases capacity r impl).0 done versioned

  -- Whatever the status of an addition, a lookup of a version other than 0 still finds the entry that
  -- it found before.
  pub find-kept :
      (t : TypeId) (i : InterfaceId) (w : ℕ) (e : InterfaceImplementation)
      → w ≢ 0
      → (find r t i w).0 ≡ some e
      → (find (add capacity r impl).1 t i w).0 ≡ some e
  find-kept t i w e versioned found = (find_cases capacity r impl).1 t i w e versioned found

-- What `available` makes of the newest entry.
abbrev pub reported : Option InterfaceImplementation → ℕ → Bool × ℕ
reported none before = (false, before)
reported (some e) before = (true, e.version)

-- A lookup of version 0 finds an entry of the type and interface that no other is newer than, or
-- none where there is none; `available` reports the version of that entry.
pub find-IsNewest :
    (r : InterfaceRegistry) (t : TypeId) (i : InterfaceId) (before : ℕ)
    → IsNewest (is_binding t i) (λ e. e.version) r.entries (find r t i 0).0
      × (available r t i before ≡ reported (find r t i 0).0 before)
unfolding find find_newest available
find-IsNewest r t i before =
    (newest-IsNewest (is_binding t i) (λ e. e.version) r.entries, shown (find r t i 0).0)
  where
    shown :
        (o : Option InterfaceImplementation)
        → (elim o as (λ x. Bool × ℕ) [ none ↦ (false, before) | some e ↦ (true, e.version) ])
          ≡ reported o before
    shown none = refl
    shown (some e) = refl
