-- ===== src/Interface/Ref/Table.antt =====
-- include/SKL/ABIX/Interface/Ref.h: InterfaceSlotTable, which many proxies share, against the cache of
-- a single proxy.
use abix.Prelude.{
  ℕ, ◌≡◌, refl, Bool, true, false, not, ◌&&◌, ◌||◌, ◌==◌, leb, ltb, Bool-cases, inl, inr,
  if◌then◌else◌, List, some, Option-cases, get_or, is_some,
}
use abix.Model.Abi.{Pointer}
use abix.Metadata.Descriptor.{missing, read}
use abix.Interface.Contract.{
  InterfaceMethodHash, InterfaceMethod, InterfaceStatus, ok, invalid_table,
}
use abix.Interface.Ref.{
  replicate, slots, scan_slots, check_slots, fill, fill_slot_entries, finish_cache, resolve_cache,
  InterfaceSlotCache, cached_method,
}

pub record InterfaceSlotTable : Type 0 where
  pub entries : List ℕ
  pub method_count : ℕ
  pub ready : Bool

abbrev pub reset_table : ℕ → InterfaceSlotTable
reset_table max = record { entries = replicate (slots max) 0; method_count = 0; ready = false }

-- After `fill_slot_entries`: a failure returns with what that left in the entries.
abbrev pub finish_table : InterfaceStatus × List ℕ × ℕ → InterfaceStatus × InterfaceSlotTable
finish_table (ok, entries, highest) =
    (ok, record { entries = entries; method_count = highest; ready = true })
finish_table (status, entries, _) =
    (status, record { entries = entries; method_count = 0; ready = false })

unfoldable pub build :
    ℕ
    → Pointer InterfaceMethod
    → ℕ
    → List InterfaceMethodHash
    → InterfaceStatus × InterfaceSlotTable
build max methods method_count expected =
    if missing method_count methods
    then (invalid_table, reset_table max)
    else finish_table
        (fill_slot_entries max (replicate (slots max) 0) (read methods method_count) expected)

unfoldable pub table_method : ℕ → InterfaceSlotTable → ℕ → ℕ
table_method max table slot =
    if leb max slot || get_or table.entries slot 0 == 0 then 0 else get_or table.entries slot 0

unfoldable pub table_bound : ℕ → InterfaceSlotTable → ℕ → Bool
table_bound max table slot = table.ready && ltb slot max && not (get_or table.entries slot 0 == 0)

-- The status, the adapters and the validity of a result of the cache and of the table.
abbrev pub Agree :
    ℕ → InterfaceStatus × InterfaceSlotCache → InterfaceStatus × InterfaceSlotTable → Type 0
Agree max (s, cache) (t, table) =
    (s ≡ t)
    × ((slot : ℕ) → cached_method max cache slot ≡ table_method max table slot)
    × (cache.method_count ≡ table.method_count)
    × (is_some cache.object ≡ table.ready)

module _ (max : ℕ) (methods : Pointer InterfaceMethod) (method_count object : ℕ)
    (expected : List InterfaceMethodHash) where
  outcomes :
      (s : InterfaceStatus) (full : List ℕ) (h : ℕ)
      → Agree max
          (finish_cache max (some object) (elim s as (λ x. InterfaceStatus × List ℕ × ℕ) [
            | ok ↦ (ok, full, h)
            | status ↦ (status, replicate (slots max) 0, h)
          ]))
          (finish_table (elim s as (λ x. InterfaceStatus × List ℕ × ℕ) [
            | ok ↦ (ok, full, h)
            | status ↦ (status, replicate (slots max) 0, h)
          ]))
  unfolding table_method cached_method
  outcomes ok full h = (refl, λ slot. refl, refl, refl)
  outcomes s full h = (refl, λ slot. refl, refl, refl)

  -- A shared table dispatches exactly as a cache that is resolved for one object: for the same methods
  -- and contract both report the same status, hold the same adapter at every slot and the same method
  -- count, and are valid together, on a failure too.
  pub build-resolve_cache :
      Agree max
        (resolve_cache max methods method_count (some object) expected)
        (build max methods method_count expected)
  unfolding build resolve_cache fill_slot_entries table_method cached_method
  build-resolve_cache = elim (Bool-cases (missing method_count methods)) [
    | inl absent ↦ rw absent (refl, λ slot. refl, refl, refl)
    | inr there ↦ elim (Option-cases (scan_slots max 0 (read methods method_count))) [
      | inl over ↦ rw (there, fill_slot_entries, over) (refl, λ slot. refl, refl, refl)
      | inr (h, found) ↦
          rw (there, fill_slot_entries, found)
            (outcomes (check_slots (read methods method_count) 0 expected)
              (fill (λ m. m.entry) (read methods method_count) (replicate (slots max) 0)) h)
    ]
  ]
