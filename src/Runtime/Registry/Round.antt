-- ===== src/Runtime/Registry/Round.antt =====
-- One round of the loop of `register_module`: a good row with room is always loaded.
use abix.Prelude.{
  ℕ, ◌+◌, ◌≤◌, ◌<◌, ◌≡◌, refl, sym, subst, arith, true, false, ◌==◌, Option-cases, inl, inr, [],
  ◌∷◌, ◌++◌, append-nil, Option, none, some, length-append, All-append, is_some,
}
use abix.Metadata.Descriptor.{Row, valid_row}
use abix.Metadata.Registry as Canonical
use abix.Metadata.Registry.Invariant.{
  Registers, refused, shared, conflicts, full, added, register_type-Registers,
  register_type-IsValid, find_by_id_kept_new,
}
use abix.Metadata.Registry.Invariant as Canon
use abix.Runtime.Registry.{
  RegisterStatus, ok, Registry, find_type, size, push, after_canonical, register_row,
}
use abix.Runtime.Registry.Check.{entry_of, new_entries}
use abix.Runtime.Registry.Invariant.{
  IsValid, DistinctVersions-append, GoodRow, GoodRow-valid_descriptor, Extends, entries-Extends,
  entry_of-valid,
}

-- One round of the loop on a row that has room.
pub record Loads (capacity : ℕ) (r : Registry) (row : Row) (version : ℕ)
    (out : RegisterStatus × Registry) : Type 0 where
  pub status : out.0 ≡ ok
  pub kept : IsValid capacity out.1
  pub entries : out.1.entries ≡ r.entries ++ new_entries r version (row ∷ [])

module _ (capacity : ℕ) (r : Registry) (row : Row) (version : ℕ) where
  -- A new entry over a canonical registry that extends the old one and knows the row's id.
  push-Loads :
      (c : Canonical.Registry)
      → IsValid capacity r
      → valid_row row ≡ true
      → find_type r row.type.type_id version ≡ none
      → size r < capacity
      → Extends r.canonical c
      → Canon.IsValid capacity c
      → Canonical.size c ≤ size r + 1
      → is_some (Canonical.find_by_id c row.type.type_id) ≡ true
      → Loads capacity r row version (push capacity (record r { canonical = c }) row version)
  unfolding push new_entries
  push-Loads c v good absent room ext cv small known =
      let e = entry_of row version in
      rw (room_lem) (record {
        status = refl;
        kept = record {
          bounded = omega (arith, length-append r.entries (e ∷ []));
          shadow = omega (arith, length-append r.entries (e ∷ []));
          canonical_valid = cv;
          entries_valid =
              All-append _ r.entries (e ∷ [])
                (entries-Extends r.canonical c r.entries ext v.entries_valid)
                (entry_of-valid c row version good known, tt);
          distinct = DistinctVersions-append r.entries e v.distinct (unfold find_type in absent);
        };
        entries = rw absent;
      })
    where
      room_lem : (size r == capacity) ≡ false
      room_lem = ground arith

  canonical_id : valid_row row ≡ true → row.canonical.id ≡ row.type.type_id
  unfolding valid_row
  canonical_id good = ground arith

  -- The canonical registration of a good row whose id is absent adds it.
  register_canonical :
      IsValid capacity r
      → GoodRow row
      → Canonical.find_by_id r.canonical row.canonical.id ≡ none
      → size r < capacity
      → (out : Canonical.RegisterStatus × Canonical.Registry)
      → Registers capacity r.canonical row.canonical row.layout 0 out
      → (out.0 ≡ Canonical.RegisterStatus.ok)
        × (Canonical.size out.1 ≡ Canonical.size r.canonical + 1)
  register_canonical v good absent room _ (refused bad) =
      let fine = GoodRow-valid_descriptor row good in absurd (cc)
  register_canonical v good absent room _ (shared e found _) = absurd (cc)
  register_canonical v good absent room _ (conflicts e found _) = absurd (cc)
  register_canonical v good absent room _ (full _ at_end) = absurd (omega (arith, v.shadow))
  register_canonical v good absent room _ (added _ _ _) =
      (refl, length-append r.canonical.entries _)

  is_some-intro : {A : Type 0} (o : Option A) (a : A) → o ≡ some a → is_some o ≡ true
  is_some-intro o a e = rw e

  after_ok :
      (out : Canonical.RegisterStatus × Canonical.Registry)
      → out.0 ≡ Canonical.RegisterStatus.ok
      → after_canonical capacity r row version out
        ≡ push capacity (record r { canonical = out.1 }) row version
  unfolding after_canonical
  after_ok (status, c) e = ground arith

  fresh-Loads :
      IsValid capacity r
      → GoodRow row
      → find_type r row.type.type_id version ≡ none
      → size r < capacity
      → Canonical.find_by_id r.canonical row.type.type_id ≡ none
      → Loads capacity r row version (
          after_canonical capacity r row version
            (Canonical.register_type capacity r.canonical (some row.canonical) (some row.layout) 0))
  fresh-Loads v good absent room fresh =
      let id = canonical_id good.0 in
      let out =
        Canonical.register_type capacity r.canonical (some row.canonical) (some row.layout) 0 in
      let (status, grown) =
        register_canonical v good (rw id fresh) room out
          (register_type-Registers capacity r.canonical row.canonical row.layout 0) in
      let (found, ext) = find_by_id_kept_new capacity r.canonical row.canonical row.layout 0 in
      let (e, hit, _) = found (inl status) in
      rw (after_ok out status) (
        push-Loads out.1 v good.0 absent room ext
          (register_type-IsValid capacity r.canonical _ _ 0 v.canonical_valid)
          (omega (arith, v.shadow, grown))
          (is_some-intro _ e (subst (λ x. Canonical.find_by_id out.1 x ≡ some e) id hit)))

  -- A good row with room is loaded: the round reports `ok`, keeps the invariant, and appends the
  -- row's entry if the registry did not have it.
  pub register_row-Loads :
      IsValid capacity r
      → GoodRow row
      → (find_type r row.type.type_id version ≡ none → size r < capacity)
      → Loads capacity r row version (register_row capacity r row version)
  unfolding register_row
  register_row-Loads v good room = elim (Option-cases (find_type r row.type.type_id version)) [
    | inr (e, found) ↦ rw found (record {
      status = refl;
      kept = v;
      entries = unfold new_entries in rw found (sym (append-nil r.entries));
    })
    | inl absent ↦ elim (Option-cases (Canonical.find_by_id r.canonical row.type.type_id)) [
      | inr (e, found) ↦
          rw (absent, found)
            (push-Loads r.canonical v good.0 absent (room absent) (λ id f h. h) v.canonical_valid
              (omega (arith, v.shadow)) (is_some-intro _ e found))
      | inl fresh ↦ rw (absent, fresh) (fresh-Loads v good absent (room absent) fresh)
    ]
  ]
