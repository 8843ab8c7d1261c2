-- ===== src/Interface/Module/Manifest.antt =====
-- What a validated manifest promises of its entries.
use abix.Prelude.{
  ◌≤◌, ◌≡◌, ◌≢◌, ◌⊎◌, refl, arith, Bool, true, false, ◌||◌, inl, inr, List, [], ◌∷◌, ◌++◌, none,
  some, any, All,
}
use abix.Util.Hash.{zero_hash}
use abix.Metadata.Descriptor.{missing, read}
use abix.Interface.Contract.{InterfaceMethod}
use abix.Interface.Ref.{has_slot}
use abix.Interface.Ref.Slots.{last_at, DistinctSlots}
use abix.Interface.Module.{
  InterfaceManifestEntry, ModuleManifest, ManifestStatus, ok, distinct_slots, validate_entry,
  validate_entries, validate_manifest,
}

any-append :
    (p : InterfaceMethod → Bool) (xs ys : List InterfaceMethod)
    → any p (xs ++ ys) ≡ any p xs || any p ys
any-append p [] ys = refl
any-append p (x ∷ xs) ys = ground (arith, any-append p xs ys)

last_at-none :
    (m : InterfaceMethod) (seen ms : List InterfaceMethod)
    → All (λ x. any (has_slot x.slot) (seen ++ m ∷ []) ≡ false) ms
    → last_at m.slot ms ≡ none
unfolding last_at
last_at-none m seen [] h = refl
last_at-none m seen (x ∷ ms) h =
    let other : has_slot m.slot x ≡ false =
      ground (arith, any-append (has_slot x.slot) seen (m ∷ []), h.0) in
    rw (last_at-none m seen ms h.1, other) refl

unseen :
    (m : InterfaceMethod) (seen ms : List InterfaceMethod)
    → All (λ x. any (has_slot x.slot) (seen ++ m ∷ []) ≡ false) ms
    → All (λ x. any (has_slot x.slot) seen ≡ false) ms
unseen m seen [] h = tt
unseen m seen (x ∷ ms) h =
    (ground (arith, any-append (has_slot x.slot) seen (m ∷ []), h.0), unseen m seen ms h.1)

distinct_slots-Distinct :
    (seen ms : List InterfaceMethod)
    → distinct_slots seen ms ≡ true
    → DistinctSlots ms × All (λ x. any (has_slot x.slot) seen ≡ false) ms
unfolding distinct_slots
distinct_slots-Distinct seen [] h = (tt, tt)
distinct_slots-Distinct seen (m ∷ ms) h =
    let miss : any (has_slot m.slot) seen ≡ false = ground arith in
    let (distinct, apart) = distinct_slots-Distinct (seen ++ m ∷ []) ms (rw miss at h) in
    ((last_at-none m seen ms apart, distinct), (miss, unseen m seen ms apart))

-- What a client may rely on.
pub record IsSound (entry : InterfaceManifestEntry) : Type 0 where
  pub identified : entry.interface_id ≢ zero_hash
  pub few : entry.method_count ≤ 65_536
  pub present : missing entry.method_count entry.methods ≡ false
  pub distinct : DistinctSlots (read entry.methods entry.method_count)

validate_entry-ok : (entry : InterfaceManifestEntry) → validate_entry entry ≡ ok → IsSound entry
unfolding validate_entry
validate_entry-ok entry h = record {
  identified = λ e. ground arith;
  few = ground arith;
  present = ground arith;
  distinct = (distinct_slots-Distinct [] (read entry.methods entry.method_count) (ground arith)).0;
}

is_ok : (s : ManifestStatus) → (s ≡ ok) ⊎ (s ≢ ok)
is_ok ok = inl refl
is_ok s = inr (ground arith)

validate_entries-ok :
    (entries : List InterfaceManifestEntry) → validate_entries entries ≡ ok → All IsSound entries
unfolding validate_entries
validate_entries-ok [] h = tt
validate_entries-ok (e ∷ es) h = elim (is_ok (validate_entry e)) [
  | inl pass ↦ (validate_entry-ok e pass, validate_entries-ok es (rw (validate_entries, pass) at h))
  | inr stop ↦ absurd (ground arith)
]

-- A manifest that is validated with status `ok` has the known version and at most 4,096 interfaces,
-- and each of its entries has an id, at most 65,536 methods, a table where it claims methods, and no
-- slot twice.
pub validate_manifest-ok :
    (manifest : ModuleManifest)
    → validate_manifest (some manifest) ≡ ok
    → (manifest.manifest_version ≡ 1)
      × (manifest.interface_count ≤ 4_096)
      × (missing manifest.interface_count manifest.interfaces ≡ false)
      × All IsSound (read manifest.interfaces manifest.interface_count)
unfolding validate_manifest
validate_manifest-ok manifest h = (
  ground arith,
  ground arith,
  ground arith,
  validate_entries-ok (read manifest.interfaces manifest.interface_count) (ground arith),
)
