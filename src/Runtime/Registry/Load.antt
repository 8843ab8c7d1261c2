-- ===== src/Runtime/Registry/Load.antt =====
-- `register_module`: the loop that follows a passed check never fails, so loading a module is all or
-- nothing.
use abix.Prelude.{
  ℕ, ◌+◌, ◌^◌, ◌≤◌, ◌<◌, ◌≡◌, ◌≢◌, refl, sym, ap, ap₂, ◌∙◌, arith, true, if◌then◌else◌, ◌⊎◌, inl,
  inr, List, [], ◌∷◌, ◌++◌, append_assoc, append-nil, none, length, length-append, All, is_some,
  find, find-append,
}
use abix.Model.Abi.{TypeId}
use abix.Metadata.Descriptor.{ModuleDescriptor, Row, rows, valid_row}
use abix.Runtime.Registry.{
  RegisterStatus, ok, RegistryEntry, Registry, has_version, find_type, size, register_row,
  register_rows, check_module, register_module, continue,
}
use abix.Runtime.Registry.Check.{new_entries, Differs, DistinctRows, Passes, check_module-IsChecked}
use abix.Runtime.Registry.Invariant.{IsValid, GoodRow}
use abix.Runtime.Registry.Round.{register_row-Loads}

-- The loop.
pub find_type-append :
    (r q : Registry) (id : TypeId) (version : ℕ) (es : List RegistryEntry)
    → q.entries ≡ r.entries ++ es
    → find_type q id version ≡ (
        if is_some (find_type r id version)
        then find_type r id version
        else find (has_version id version) es)
unfolding find_type
find_type-append r q id version es e = rw e (find-append (has_version id version) r.entries es)

-- Loading a row does not change what another row finds.
new_entries_other :
    (r q : Registry) (row : Row) (version : ℕ) (rest : List Row)
    → q.entries ≡ r.entries ++ new_entries r version (row ∷ [])
    → All (Differs row) rest
    → new_entries q version rest ≡ new_entries r version rest
unfolding new_entries find
new_entries_other r q row version [] e d = refl
new_entries_other r q row version (x ∷ rest) e (d, ds) = ground (
  arith,
  find_type-append r q x.type.type_id version (new_entries r version (row ∷ [])) e,
  new_entries_other r q row version rest e ds,
)

new_entries_cons :
    (r : Registry) (version : ℕ) (row : Row) (rest : List Row)
    → new_entries r version (row ∷ rest)
      ≡ new_entries r version (row ∷ []) ++ new_entries r version rest
unfolding new_entries
new_entries_cons r version row rest = ground arith

continue_ok :
    (out : RegisterStatus × Registry) (k : Registry → RegisterStatus × Registry)
    → out.0 ≡ ok
    → continue out k ≡ k out.1
continue_ok (status, q) k e = ground arith

room_of :
    (r : Registry) (version : ℕ) (row : Row) (rest : List Row) (capacity : ℕ)
    → size r + length (new_entries r version (row ∷ rest)) ≤ capacity
    → find_type r row.type.type_id version ≡ none
    → size r < capacity
unfolding new_entries
room_of r version row rest capacity fits absent = ground arith

record LoadsAll (capacity : ℕ) (r : Registry) (l : List Row) (version : ℕ)
    (out : RegisterStatus × Registry) : Type 0 where
  status : out.0 ≡ ok
  kept : IsValid capacity out.1
  entries : out.1.entries ≡ r.entries ++ new_entries r version l

register_rows-LoadsAll :
    (capacity : ℕ) (r : Registry) (l : List Row) (version : ℕ)
    → IsValid capacity r
    → All GoodRow l
    → DistinctRows l
    → size r + length (new_entries r version l) ≤ capacity
    → LoadsAll capacity r l version (register_rows capacity r l version)
unfolding register_rows
register_rows-LoadsAll capacity r [] version v g d fits = record {
  status = refl;
  kept = v;
  entries = unfold new_entries in sym (append-nil r.entries);
}
register_rows-LoadsAll capacity r (row ∷ rest) version v g d fits =
    let out = register_row capacity r row version in
    let one =
      register_row-Loads capacity r row version v g.0 (room_of r version row rest capacity fits) in
    let same = new_entries_other r out.1 row version rest one.entries d.0 in
    let split = new_entries_cons r version row rest in
    let more = register_rows-LoadsAll capacity out.1 rest version one.kept g.1 d.1 (
      omega (
        arith,
        ap length one.entries,
        length-append r.entries (new_entries r version (row ∷ [])),
        ap length same,
        ap length split,
        length-append (new_entries r version (row ∷ [])) (new_entries r version rest),
      )) in
    rw (continue_ok out (λ q. register_rows capacity q rest version) one.status) (record {
      status = more.status;
      kept = more.kept;
      entries =
          more.entries
          ∙ ap₂ (λ (x y : List RegistryEntry). x ++ y) one.entries same
          ∙ append_assoc r.entries (new_entries r version (row ∷ [])) (new_entries r version rest)
          ∙ ap (λ x. r.entries ++ x) (sym split);
    })

GoodRows :
    (r : Registry) (version : ℕ) (l : List Row)
    → All (λ row. valid_row row ≡ true) l
    → All (Passes r version) l
    → All GoodRow l
GoodRows r version [] v p = tt
GoodRows r version (row ∷ l) v p = ((v.0, p.0.0), GoodRows r version l v.1 p.1)

pub register_module_cases :
    (capacity : ℕ) (r : Registry) (m : ModuleDescriptor) (version : ℕ)
    → IsValid capacity r
    → capacity < 2 ^ 64
    → (check_module capacity r m version ≢ ok
        → register_module capacity r m version ≡ (check_module capacity r m version, r))
      × (check_module capacity r m version ≡ ok
          → ((register_module capacity r m version).0 ≡ ok)
            × IsValid capacity (register_module capacity r m version).1
            × ((register_module capacity r m version).1.entries
                ≡ r.entries ++ new_entries r version (rows m)))
unfolding register_module
register_module_cases capacity r m version v small = (
  λ h. refuse (check_module capacity r m version) h,
  λ h.
      let c = check_module-IsChecked capacity r m version h in
      let out =
        register_rows-LoadsAll capacity r (rows m) version v
          (GoodRows r version (rows m) c.valid_rows c.passed) c.distinct
          (omega (arith, v.bounded, c.fits)) in
      rw (h, register_module) (out.status, out.kept, out.entries),
)
  where
    refuse :
        (s : RegisterStatus)
        → s ≢ ok
        → (elim s [ ok ↦ register_rows capacity r (rows m) version | status ↦ (status, r) ])
          ≡ (s, r)
    refuse s h = ground arith

pub is_ok : (s : RegisterStatus) → (s ≡ ok) ⊎ (s ≢ ok)
is_ok ok = inl refl
is_ok s = inr (ground arith)

-- Loading a module into a valid registry, of a capacity below 2 ^ 64, is all or nothing: where the
-- dry run reports an error, loading reports the same error and changes nothing; where it passes,
-- loading succeeds, keeps the invariant, and appends exactly the entries that the registry lacked,
-- in the module's order.
pub register_module_lem :
    (capacity : ℕ) (r : Registry) (m : ModuleDescriptor) (version : ℕ)
    → IsValid capacity r
    → capacity < 2 ^ 64
    → ((check_module capacity r m version ≢ ok)
        × (register_module capacity r m version ≡ (check_module capacity r m version, r)))
      ⊎ ((check_module capacity r m version ≡ ok)
          × ((register_module capacity r m version).0 ≡ ok)
          × IsValid capacity (register_module capacity r m version).1
          × ((register_module capacity r m version).1.entries
              ≡ r.entries ++ new_entries r version (rows m)))
register_module_lem capacity r m version v small =
    elim (is_ok (check_module capacity r m version)) [
      | inl e ↦
          let (done, kept, grown) = (register_module_cases capacity r m version v small).1 e in
          inr (e, done, kept, grown)
      | inr n ↦ inl (n, (register_module_cases capacity r m version v small).0 n)
    ]

module _ (capacity : ℕ) (r : Registry) (m : ModuleDescriptor) (version : ℕ) where
  -- Loading reports `ok` only where the dry run passes.
  pub check_module-ok :
      IsValid capacity r
      → capacity < 2 ^ 64
      → (register_module capacity r m version).0 ≡ ok
      → check_module capacity r m version ≡ ok
  check_module-ok v small done = elim (is_ok (check_module capacity r m version)) [
    | inl e ↦ e
    | inr n ↦
        let same = (register_module_cases capacity r m version v small).0 n in
        absurd (n (sym (ap (λ o. o.0) same) ∙ done))
  ]

  -- The invariant survives every call, whatever its status.
  pub register_module-IsValid :
      IsValid capacity r
      → capacity < 2 ^ 64
      → IsValid capacity (register_module capacity r m version).1
  register_module-IsValid v small = elim (is_ok (check_module capacity r m version)) [
    | inl e ↦ ((register_module_cases capacity r m version v small).1 e).1
    | inr n ↦ rw ((register_module_cases capacity r m version v small).0 n) v
  ]
