-- ===== src/Metadata/Registry/Kernel.antt =====
-- `bootstrap_self`: the two kernel records in the canonical registry.
use abix.Prelude.{
  ℕ, ◌+◌, ◌≤◌, ◌≡◌, ◌≢◌, refl, ap, ◌∙◌, arith, true, false, List, [], ◌∷◌, ◌++◌, Option, none, some,
  length-append, find, find-append,
}
use abix.Model.Abi.{TypeDesc, TypeLayout}
use abix.Model.Bootstrap.{BootRecord, BootStatus, abix_bootstrap, valid_record}
use abix.Metadata.Registry.{
  RegisterStatus, Bootstrap, Registry, RegistryEntry, find_by_id, has_id, size, valid_descriptor,
  register_type, register_valid, consume_record, consume_bootstrap, kernel_records, entry_desc,
  entry_layout, metadata_desc, metadata_layout, metadata_metadata, bootstrap_self,
}
use abix.Metadata.Registry.Invariant.{IsValid, register_type-IsValid}

abbrev pub kernel_entry : TypeDesc → TypeLayout → ℕ → RegistryEntry
kernel_entry desc layout h = record { desc = desc; layout = layout; bootstrap_hash = h }

still_absent :
    (r : Registry) (e : RegistryEntry)
    → find_by_id r metadata_desc.id ≡ none
    → has_id metadata_desc.id e ≡ false
    → find_by_id (record { entries = r.entries ++ e ∷ [] }) metadata_desc.id ≡ none
unfolding find_by_id find
still_absent r e h other =
    rw (find-append (has_id metadata_desc.id) r.entries (e ∷ [])) (ground arith)

module _ (capacity : ℕ) where
  consume_record-IsValid :
      (r : Registry) (h : ℕ) (m : Option Bootstrap)
      → IsValid capacity r
      → IsValid capacity (consume_record capacity r h m)
  unfolding consume_record
  consume_record-IsValid r h none v = v
  consume_record-IsValid r h (some m) v = register_type-IsValid capacity r m.desc m.layout h v

  consume_bootstrap-IsValid :
      (bs : List (BootRecord Bootstrap)) (r : Registry)
      → IsValid capacity r
      → IsValid capacity (consume_bootstrap capacity bs r)
  unfolding consume_bootstrap
  consume_bootstrap-IsValid [] r v = v
  consume_bootstrap-IsValid (b ∷ bs) r v =
      consume_bootstrap-IsValid bs _ (consume_record-IsValid r b.type_hash b.metadata v)

  -- The kernel image is always accepted, and its consumer is handed the two kernel records.
  bootstrap_self_lem :
      (r : Registry)
      → bootstrap_self capacity r ≡ (BootStatus.ok, consume_bootstrap capacity kernel_records r)
  unfolding bootstrap_self abix_bootstrap valid_record
  bootstrap_self_lem r = refl

  -- `bootstrap_self` reports `ok` whatever the registry holds, and keeps its invariant.
  pub bootstrap_self-IsValid :
      (r : Registry)
      → IsValid capacity r
      → ((bootstrap_self capacity r).0 ≡ BootStatus.ok)
        × IsValid capacity (bootstrap_self capacity r).1
  bootstrap_self-IsValid r v =
      rw (bootstrap_self_lem r) (refl, consume_bootstrap-IsValid kernel_records r v)

  register_absent :
      (r : Registry) (desc : TypeDesc) (layout : TypeLayout) (h : ℕ)
      → valid_descriptor (some desc) (some layout) ≡ true
      → find_by_id r desc.id ≡ none
      → size r ≢ capacity
      → register_type capacity r (some desc) (some layout) h
        ≡ (RegisterStatus.ok, record { entries = r.entries ++ kernel_entry desc layout h ∷ [] })
  unfolding register_type
  register_absent r desc layout h good absent room =
      rw (good, absent, register_valid) (ground arith)

  register_full :
      (r : Registry) (desc : TypeDesc) (layout : TypeLayout) (h : ℕ)
      → find_by_id r desc.id ≡ none
      → size r ≡ capacity
      → (register_type capacity r (some desc) (some layout) h).1 ≡ r
  unfolding register_type
  register_full r desc layout h absent full = ground arith

  -- A full registry without the kernel types: `bootstrap_self` reports `ok` and registers nothing.
  pub bootstrap_self-full :
      (r : Registry)
      → size r ≡ capacity
      → find_by_id r entry_desc.id ≡ none
      → find_by_id r metadata_desc.id ≡ none
      → bootstrap_self capacity r ≡ (BootStatus.ok, r)
  unfolding consume_bootstrap
  bootstrap_self-full r full no_entry no_metadata =
      let one = register_full r entry_desc entry_layout 0x5245_4745_4e54_5259 no_entry full in
      let two =
        register_full r metadata_desc metadata_layout 0x424f_4f54_5354_5241 no_metadata full in
      bootstrap_self_lem r
      ∙ ap (λ (q : Registry). (BootStatus.ok, q))
          (ap
              (λ (q : Registry).
                consume_record capacity q 0x424f_4f54_5354_5241 (some metadata_metadata))
              one
            ∙ two)

  -- With room for two entries and neither kernel type there, `bootstrap_self` appends exactly the two
  -- kernel entries.
  pub bootstrap_self-new :
      (r : Registry)
      → size r + 2 ≤ capacity
      → find_by_id r entry_desc.id ≡ none
      → find_by_id r metadata_desc.id ≡ none
      → bootstrap_self capacity r ≡ (
        BootStatus.ok,
        record {
          entries =
              (r.entries ++ kernel_entry entry_desc entry_layout 0x5245_4745_4e54_5259 ∷ [])
              ++ kernel_entry metadata_desc metadata_layout 0x424f_4f54_5354_5241 ∷ [];
        },
      )
  unfolding consume_bootstrap
  bootstrap_self-new r room no_entry no_metadata =
      let e = kernel_entry entry_desc entry_layout 0x5245_4745_4e54_5259 in
      let q : Registry = record { entries = r.entries ++ e ∷ [] } in
      let one =
        register_absent r entry_desc entry_layout 0x5245_4745_4e54_5259
          (unfold valid_descriptor in refl) no_entry (omega arith) in
      let two =
        register_absent q metadata_desc metadata_layout 0x424f_4f54_5354_5241
          (unfold valid_descriptor in refl) (still_absent r e no_metadata refl)
          (omega (arith, length-append r.entries (e ∷ []))) in
      bootstrap_self_lem r
      ∙ ap (λ (q : Registry). (BootStatus.ok, q))
          (ap
              (λ (o : RegisterStatus × Registry).
                consume_record capacity o.1 0x424f_4f54_5354_5241 (some metadata_metadata))
              one
            ∙ ap (λ (o : RegisterStatus × Registry). o.1) two)
