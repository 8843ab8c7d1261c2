-- ===== src/Metadata/Registry/Outcome.antt =====
-- include/SKL/ABIX/Metadata/Registry.h, register_type: its answers, by the entries of the registry.
use mathlib.Core.List.{Memᴰ}
use abix.Prelude.{
  ℕ, ◌+◌, ◌-◌, ◌%◌, ◌^◌, ◌≡◌, ◌≢◌, ◌⊎◌, refl, sym, subst, ◌∙◌, arith, bit_and, true, false, ◌&&◌,
  ◌==◌, Bool-cases, inl, inr, [], ◌∷◌, ◌++◌, Option, none, some, find-eq-some, find-eq-none,
}
use abix.Util.Hash.{Hash128}
use abix.Model.Abi.{TypeId, TypeDesc, TypeLayout}
use abix.Metadata.Registry.{
  RegisterStatus, ok, invalid_descriptor, capacity_exceeded, already_registered, layout_conflict,
  RegistryEntry, Registry, valid_descriptor, same_layout, has_id, find_by_id, size, register_type,
}
use abix.Metadata.Registry.Invariant.{
  Registers, refused, shared, conflicts, full, added, register_type-Registers,
}

-- An id that is not 0, and a size and an alignment that are not 0, the alignment with one bit.
pub record Wellformed (desc : TypeDesc) (layout : TypeLayout) : Type 0 where
  pub has_type : (desc.id.lo ≡ 0) × (desc.id.hi ≡ 0) → ⊥
  pub has_size : layout.size ≢ 0
  pub has_align : layout.align ≢ 0
  pub one_bit : bit_and layout.align ((layout.align + 2 ^ 32 - 1) % 2 ^ 32) ≡ 0

abbrev pub SameLayout : TypeLayout → TypeLayout → Type 0
SameLayout l m = (l.size ≡ m.size) × (l.align ≡ m.align) × (l.layout_hash ≡ m.layout_hash)

-- The answer to pointers, by what stands in the registry, and the registry after it.
pub data Answer (capacity : ℕ) (r : Registry) (h : ℕ)
    : Option TypeDesc → Option TypeLayout → RegisterStatus × Registry → Type 0 where
  no_desc : (layout : Option TypeLayout) → Answer capacity r h none layout (invalid_descriptor, r)
  no_layout : (desc : TypeDesc) → Answer capacity r h (some desc) none (invalid_descriptor, r)
  malformed :
      (desc : TypeDesc) (layout : TypeLayout)
      → (Wellformed desc layout → ⊥)
      → Answer capacity r h (some desc) (some layout) (invalid_descriptor, r)
  known :
      (desc : TypeDesc) (layout : TypeLayout) (e : RegistryEntry)
      → Wellformed desc layout
      → Memᴰ e r.entries
      → e.desc.id ≡ desc.id
      → SameLayout e.layout layout
      → Answer capacity r h (some desc) (some layout) (already_registered, r)
  clash :
      (desc : TypeDesc) (layout : TypeLayout) (e : RegistryEntry)
      → Wellformed desc layout
      → Memᴰ e r.entries
      → e.desc.id ≡ desc.id
      → (SameLayout e.layout layout → ⊥)
      → Answer capacity r h (some desc) (some layout) (layout_conflict, r)
  no_room :
      (desc : TypeDesc) (layout : TypeLayout)
      → Wellformed desc layout
      → ((e : RegistryEntry) → Memᴰ e r.entries → e.desc.id ≢ desc.id)
      → size r ≡ capacity
      → Answer capacity r h (some desc) (some layout) (capacity_exceeded, r)
  appended :
      (desc : TypeDesc) (layout : TypeLayout)
      → Wellformed desc layout
      → ((e : RegistryEntry) → Memᴰ e r.entries → e.desc.id ≢ desc.id)
      → size r ≢ capacity
      → Answer capacity r h (some desc) (some layout) (
        ok,
        record {
          entries = r.entries ++ record { desc = desc; layout = layout; bootstrap_hash = h } ∷ [];
        },
      )

same_hash : (x y : Hash128) → x.lo ≡ y.lo → x.hi ≡ y.hi → x ≡ y
same_hash x y p q = cc

has_id-≡ : (id : TypeId) (e : RegistryEntry) → has_id id e ≡ true → e.desc.id ≡ id
has_id-≡ id e h =
    let low : e.desc.id.lo ≡ id.lo = ground (arith, h) in
    let high : e.desc.id.hi ≡ id.hi = ground (arith, h) in same_hash e.desc.id id low high

has_id-≢ : (id : TypeId) (e : RegistryEntry) → has_id id e ≡ false → e.desc.id ≢ id
has_id-≢ id e h same =
    let hit : has_id id e ≡ true = subst (λ i. has_id i e ≡ true) same (ground arith) in
    let bad : true ≡ false = sym hit ∙ h in absurd (cc)

nonzero : (n : ℕ) → n ≢ 0 → (n == 0) ≡ false
nonzero n h = elim (Bool-cases (n == 0)) [
  | inl null ↦ absurd (h (ground (arith, null)))
  | inr other ↦ other
]

module _ (desc : TypeDesc) (layout : TypeLayout) where
  valid-Wellformed : valid_descriptor (some desc) (some layout) ≡ true → Wellformed desc layout
  unfolding valid_descriptor
  valid-Wellformed h = record {
    has_type = λ (low, high). ground (arith, h, low, high);
    has_size = λ e. ground (arith, h, e);
    has_align = λ e. ground (arith, h, e);
    one_bit = ground (arith, h);
  }

  invalid-Wellformed :
      valid_descriptor (some desc) (some layout) ≡ false → Wellformed desc layout → ⊥
  unfolding valid_descriptor
  invalid-Wellformed h w =
      let size : (layout.size == 0) ≡ false = nonzero layout.size w.has_size in
      let align : (layout.align == 0) ≡ false = nonzero layout.align w.has_align in
      let bit : (bit_and layout.align ((layout.align + 2 ^ 32 - 1) % 2 ^ 32) == 0) ≡ true =
        let one = w.one_bit in ground (arith, one) in
      let type : (desc.id.lo == 0 && desc.id.hi == 0) ≡ false =
        elim (Bool-cases (desc.id.lo == 0 && desc.id.hi == 0)) [
          | inr other ↦ other
          | inl null ↦ absurd (w.has_type (ground (arith, null), ground (arith, null)))
        ] in
      let bad : true ≡ false = rw (type, size, align, bit) at h in absurd (cc)

  same_layout-true :
      (l : TypeLayout) → same_layout (some l) (some layout) ≡ true → SameLayout l layout
  unfolding same_layout
  same_layout-true l h =
      let low : l.layout_hash.lo ≡ layout.layout_hash.lo = ground (arith, h) in
      let high : l.layout_hash.hi ≡ layout.layout_hash.hi = ground (arith, h) in
      (ground (arith, h), ground (arith, h), same_hash l.layout_hash layout.layout_hash low high)

  same_layout-false :
      (l : TypeLayout) → same_layout (some l) (some layout) ≡ false → SameLayout l layout → ⊥
  unfolding same_layout
  same_layout-false l h (s, a, hash) =
      let hit : same_layout (some l) (some layout) ≡ true =
        let low : l.layout_hash.lo ≡ layout.layout_hash.lo = rw hash refl in
        let high : l.layout_hash.hi ≡ layout.layout_hash.hi = rw hash refl in
        ground (arith, s, a, low, high) in
      let bad : true ≡ false = sym hit ∙ h in absurd (cc)

  found-Memᴰ :
      (r : Registry) (e : RegistryEntry)
      → find_by_id r desc.id ≡ some e
      → (e.desc.id ≡ desc.id) × Memᴰ e r.entries
  unfolding find_by_id
  found-Memᴰ r e f =
      let (hit, there) = find-eq-some (has_id desc.id) r.entries e f in
      (has_id-≡ desc.id e hit, there)

  absent-Memᴰ :
      (r : Registry)
      → find_by_id r desc.id ≡ none
      → (e : RegistryEntry) → Memᴰ e r.entries
      → e.desc.id ≢ desc.id
  unfolding find_by_id
  absent-Memᴰ r f e there = has_id-≢ desc.id e (find-eq-none (has_id desc.id) r.entries e f there)

module _ (capacity : ℕ) (r : Registry) (h : ℕ) where
  Answer-of :
      (desc : TypeDesc) (layout : TypeLayout) (out : RegisterStatus × Registry)
      → (valid_descriptor (some desc) (some layout) ≡ true) ⊎ (out ≡ (invalid_descriptor, r))
      → Registers capacity r desc layout h out
      → Answer capacity r h (some desc) (some layout) out
  Answer-of desc layout _ v (refused bad) =
      malformed desc layout (invalid-Wellformed desc layout bad)
  Answer-of desc layout _ (inr e) (shared d f s) = cc
  Answer-of desc layout _ (inl v) (shared d f s) =
      let (same, there) = found-Memᴰ desc layout r d f in
      known desc layout d (valid-Wellformed desc layout v) there same
        (same_layout-true desc layout d.layout s)
  Answer-of desc layout _ (inr e) (conflicts d f s) = cc
  Answer-of desc layout _ (inl v) (conflicts d f s) =
      let (same, there) = found-Memᴰ desc layout r d f in
      clash desc layout d (valid-Wellformed desc layout v) there same
        (same_layout-false desc layout d.layout s)
  Answer-of desc layout _ (inr e) (full absent at_end) = cc
  Answer-of desc layout _ (inl v) (full absent at_end) =
      no_room desc layout (valid-Wellformed desc layout v) (absent-Memᴰ desc layout r absent) at_end
  Answer-of desc layout _ v (added good absent room) =
      appended desc layout (valid-Wellformed desc layout good) (absent-Memᴰ desc layout r absent)
        room

  refused_or_valid :
      (desc : TypeDesc) (layout : TypeLayout)
      → (valid_descriptor (some desc) (some layout) ≡ true)
        ⊎ (register_type capacity r (some desc) (some layout) h ≡ (invalid_descriptor, r))
  unfolding register_type
  refused_or_valid desc layout = elim (Bool-cases (valid_descriptor (some desc) (some layout))) [
    | inl good ↦ inl good
    | inr bad ↦ inr (rw bad refl)
  ]

  -- Whatever pointers register_type is given, its answer is told by them and by the entries alone. A null
  -- pointer, a type id or a size or an alignment of 0, and an alignment of more than one bit are
  -- invalid_descriptor. Otherwise, an entry of the type id that has the same size, alignment and layout hash is
  -- already_registered, and an entry of the type id that differs in one of them is layout_conflict. Without an
  -- entry of the type id, the answer is capacity_exceeded in a full registry, and else ok. Only ok changes the
  -- registry, which gets the new entry behind the others.
  pub register_type-Answer :
      (desc : Option TypeDesc) (layout : Option TypeLayout)
      → Answer capacity r h desc layout (register_type capacity r desc layout h)
  unfolding register_type
  register_type-Answer none layout = no_desc layout
  register_type-Answer (some desc) none = no_layout desc
  register_type-Answer (some desc) (some layout) =
      Answer-of desc layout (register_type capacity r (some desc) (some layout) h)
        (refused_or_valid desc layout) (register_type-Registers capacity r desc layout h)
