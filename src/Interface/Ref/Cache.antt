-- ===== src/Interface/Ref/Cache.antt =====
-- What a slot cache dispatches to, against the signatures that the contract expects.
use abix.Prelude.{
  ℕ, zero, suc, ◌+◌, ◌^◌, ◌<◌, ◌≡◌, ◌≢◌, ◌⊎◌, refl, sym, subst, ◌∙◌, arith, false, not, ◌||◌,
  Bool-cases, Option-cases, inl, inr, List, [], ◌∷◌, Option, some, length, get_or, All,
  find as find_first, is_some,
}
use abix.Util.Hash.{eq_hash, zero_hash}
use abix.Model.Abi.{Pointer}
use abix.Metadata.Descriptor.{missing, read}
use abix.Interface.Contract.{InterfaceMethodHash, InterfaceMethod, InterfaceStatus, ok}
use abix.Interface.Ref.{
  replicate, slots, scan_slots, fill, has_slot, check_slot, check_slots, fill_slot_entries,
  finish_cache, resolve_cache, cached_method,
}
use abix.Interface.Ref.Slots.{last_at, scan_slots-some, DistinctSlots, last_at-find, last_at-lt}
use abix.Interface.Ref.Resolve.{fill-blank}

is_ok : (s : InterfaceStatus) → (s ≡ ok) ⊎ (s ≢ ok)
is_ok ok = inl refl
is_ok s = inr (ground arith)

check_slots-ok :
    (ms : List InterfaceMethod) (slot : ℕ) (expected : List InterfaceMethodHash) (i : ℕ)
    → check_slots ms slot expected ≡ ok
    → i < length expected
    → check_slot ms (slot + i) (get_or expected i zero_hash) ≡ ok
unfolding check_slots
check_slots-ok ms slot [] i h low = absurd (omega (arith, low))
check_slots-ok ms slot (e ∷ es) i h low = elim (is_ok (check_slot ms slot e)) [
  | inr stop ↦ absurd (ground arith)
  | inl pass ↦ go (λ j. check_slots-ok ms (suc slot) es j (rw (check_slots, pass) at h)) i low pass
]
  where
    go :
        ((j : ℕ) → j < length es → check_slot ms (suc slot + j) (get_or es j zero_hash) ≡ ok)
        → (j : ℕ) → j < length (e ∷ es)
        → check_slot ms slot e ≡ ok
        → check_slot ms (slot + j) (get_or (e ∷ es) j zero_hash) ≡ ok
    go rest zero low' pass =
        let same : slot + 0 ≡ slot = omega arith in
        subst (λ k. check_slot ms k e ≡ ok) (sym same) pass
    go rest (suc j) low' pass =
        let next : slot + suc j ≡ suc slot + j = omega arith in
        rw next (rest j (omega (arith, low')))

-- A slot that passes a check names the first method of the slot.
check_slot-ok :
    (ms : List InterfaceMethod) (slot : ℕ) (expected : InterfaceMethodHash)
    → check_slot ms slot expected ≡ ok
    → expected ≢ zero_hash
    → (m : InterfaceMethod) × (find_first (has_slot slot) ms ≡ some m)
      × (m.entry ≢ 0)
      × (m.signature ≡ expected)
unfolding check_slot
check_slot-ok ms slot expected h n =
    let asked : eq_hash expected zero_hash ≡ false = ground arith in
    elim (Option-cases (find_first (has_slot slot) ms)) [
      | inl absent ↦ absurd (let e = rw (asked, absent) at h in cc)
      | inr (m, found) ↦
          let e = rw (asked, found) at h in (m, found, ground (arith, e), ground (arith, e))
    ]

below_max :
    (max h : ℕ) (ms : List InterfaceMethod)
    → All (λ m. (m.slot < max) × (m.slot < h)) ms
    → All (λ m. m.slot < max) ms
below_max max h [] a = tt
below_max max h (m ∷ ms) a = (a.0.0, below_max max h ms a.1)

module _ (max : ℕ) (methods : Pointer InterfaceMethod) (method_count : ℕ) (object : Option ℕ)
    (expected : List InterfaceMethodHash) where
  refuses :
      (s : InterfaceStatus) (full blank : List ℕ) (h : ℕ)
      → s ≢ ok
      → (finish_cache max object (elim s as (λ x. InterfaceStatus × List ℕ × ℕ) [
        | ok ↦ (ok, full, h)
        | status ↦ (status, blank, h)
      ])).0
        ≢ ok
  refuses ok full blank h n d = n refl
  refuses s full blank h n d = n d

  -- Where the method table (of a capacity below 2 ^ 32) has no slot twice and the cache resolves with
  -- status `ok`, every slot of the contract with a signature dispatches to an adapter, not null, of a
  -- method that the provider recorded with that very signature.
  pub resolve_cache-ok :
      max < 2 ^ 32
      → DistinctSlots (read methods method_count)
      → (resolve_cache max methods method_count object expected).0 ≡ ok
      → (slot : ℕ) → slot < length expected
      → get_or expected slot zero_hash ≢ zero_hash
      → (m : InterfaceMethod) × (find_first (has_slot slot) (read methods method_count) ≡ some m)
        × (m.signature ≡ get_or expected slot zero_hash)
        × (m.entry ≢ 0)
        × (cached_method max (resolve_cache max methods method_count object expected).1 slot
            ≡ m.entry)
  unfolding resolve_cache fill_slot_entries cached_method
  resolve_cache-ok small distinct done slot low asked =
      elim (Bool-cases (not (is_some object) || missing method_count methods)) [
        | inl bad ↦ absurd (let e = rw bad at done in cc)
        | inr good ↦ elim (Option-cases (scan_slots max 0 (read methods method_count))) [
          | inl over ↦ absurd (let e = rw (good, fill_slot_entries, over) at done in cc)
          | inr (h, found) ↦ elim (is_ok (check_slots (read methods method_count) 0 expected)) [
            | inr stop ↦ absurd (
                refuses (check_slots (read methods method_count) 0 expected) _ _ h stop
                  (rw (good, fill_slot_entries, found) at done))
            | inl pass ↦
                let ms = read methods method_count in
                let a = (scan_slots-some max 0 ms h small found).1 in
                let (m, at_slot, nonnull, signed) =
                  check_slot-ok ms slot (get_or expected slot zero_hash)
                    (let start : 0 + slot ≡ slot = omega arith in
                      subst (λ k. check_slot ms k (get_or expected slot zero_hash) ≡ ok) start
                        (check_slots-ok ms 0 expected slot pass low))
                    asked in
                let last : last_at slot ms ≡ some m = last_at-find slot ms distinct ∙ at_slot in
                let in_range : slot < max = last_at-lt slot max ms m (below_max max h ms a) last in
                let entry : get_or (fill (λ m'. m'.entry) ms (replicate (slots max) 0)) slot 0
                    ≡ m.entry =
                  fill-blank (λ m'. m'.entry) max h ms slot 0 a ∙ rw last refl in
                (
                  m,
                  at_slot,
                  signed,
                  nonnull,
                  rw (good, fill_slot_entries, found, pass, cached_method, entry) (ground arith),
                )
          ]
        ]
      ]
