-- ===== src/Interface/Ref/Resolve.antt =====
-- What a resolved handle dispatches to, and what it refuses.
use abix.Prelude.{
  ℕ, zero, suc, ◌^◌, ◌<◌, ◌≡◌, ◌≢◌, ◌⊎◌, refl, ◌∙◌, arith, Bool, true, false, not, ◌&&◌, ◌||◌,
  Bool-cases, Option-cases, inl, inr, if◌then◌else◌, ◌==◌, leb, ltb, List, [], ◌∷◌, Option, get_or,
  All, is_some,
}
use abix.Util.Hash.{Hash128, eq_hash, zero_hash}
use abix.Model.Abi.{Pointer}
use abix.Metadata.Descriptor.{missing, read}
use abix.Interface.Contract.{
  InterfaceId, InterfaceMethodHash, InterfaceMethod, ok, method_not_found, signature_mismatch,
}
use abix.Interface.Ref.{
  InterfaceRef, replicate, slots, scan_slots, fill, reset, resolve_methods, method, bound,
  signature, verify, verified_method,
}
use abix.Interface.Ref.Slots.{
  last_at, written, get_or-replicate, length-replicate, get_or-fill, scan_slots-some, last_at-lt,
}

fits :
    (max h : ℕ) (ms : List InterfaceMethod)
    → All (λ m. (m.slot < max) × (m.slot < h)) ms
    → All (λ m. m.slot < slots max) ms
fits max h [] a = tt
fits zero h (m ∷ ms) a = absurd (omega (arith, a.0.0))
fits (suc n) h (m ∷ ms) a = (a.0.0, fits (suc n) h ms a.1)

below :
    (max h : ℕ) (ms : List InterfaceMethod)
    → All (λ m. (m.slot < max) × (m.slot < h)) ms
    → All (λ m. m.slot < h) ms
below max h [] a = tt
below max h (m ∷ ms) a = (a.0.1, below max h ms a.1)

-- An array that was blank holds at each slot what the last method of the slot has.
pub fill-blank {ℓ} :
    {A : Type ℓ} (f : InterfaceMethod → A) (max h : ℕ) (ms : List InterfaceMethod) (slot : ℕ)
    (d : A)
    → All (λ m. (m.slot < max) × (m.slot < h)) ms
    → get_or (fill f ms (replicate (slots max) d)) slot d ≡ written f (last_at slot ms) d
fill-blank f max h ms slot d a =
    get_or-fill f ms (replicate (slots max) d) slot d
      (rw (length-replicate (slots max) d) (fits max h ms a))
    ∙ rw (get_or-replicate (slots max) slot d) refl

dispatch :
    (r : InterfaceRef) (ms : List InterfaceMethod) (slot : ℕ)
    → All (λ m. m.slot < r.method_count) ms
    → get_or r.entries slot 0 ≡ written (λ m. m.entry) (last_at slot ms) 0
    → get_or r.signatures slot zero_hash ≡ written (λ m. m.signature) (last_at slot ms) zero_hash
    → (method r slot ≡ written (λ m. m.entry) (last_at slot ms) 0)
      × (signature r slot ≡ written (λ m. m.signature) (last_at slot ms) zero_hash)
unfolding method signature
dispatch r ms slot a entry sig = elim (Option-cases (last_at slot ms)) [
  | inl absent ↦
      let null : get_or r.entries slot 0 ≡ 0 = entry ∙ rw absent refl in
      let blank : get_or r.signatures slot zero_hash ≡ zero_hash = sig ∙ rw absent refl in
      rw (absent, null, blank) (ground arith, if_same (ltb slot r.method_count) zero_hash)
  | inr (m, found) ↦
      let low : slot < r.method_count = last_at-lt slot r.method_count ms m a found in
      let in_range : ltb slot r.method_count ≡ true = ground arith in
      let entry_m : get_or r.entries slot 0 ≡ m.entry = entry ∙ rw found refl in
      let sig_m : get_or r.signatures slot zero_hash ≡ m.signature = sig ∙ rw found refl in
      rw (found, entry_m, sig_m, in_range) (ground arith, refl)
]
  where
    if_same : (b : Bool) (x : Hash128) → (if b then x else x) ≡ x
    if_same true x = refl
    if_same false x = refl

module _ (max : ℕ) (interface_id : InterfaceId) (version : ℕ) (methods : Pointer InterfaceMethod)
    (method_count : ℕ) (object : Option ℕ) where
  -- A resolved handle (of a capacity below 2 ^ 32) dispatches every slot to the adapter of the last
  -- method of the slot, and records its signature; a slot without a method has the null adapter and
  -- the zero signature.
  pub resolve_methods-ok :
      max < 2 ^ 32
      → (resolve_methods max interface_id version methods method_count object).0 ≡ ok
      → (slot : ℕ)
      → (method (resolve_methods max interface_id version methods method_count object).1 slot
          ≡ written (λ m. m.entry) (last_at slot (read methods method_count)) 0)
        × (signature (resolve_methods max interface_id version methods method_count object).1 slot
            ≡ written (λ m. m.signature) (last_at slot (read methods method_count)) zero_hash)
  unfolding resolve_methods
  resolve_methods-ok small done slot =
      elim (Bool-cases (not (is_some object) || missing method_count methods)) [
        | inl bad ↦ absurd (let e = rw bad at done in cc)
        | inr good ↦ elim (Option-cases (scan_slots max 0 (read methods method_count))) [
          | inl over ↦ absurd (let e = rw (good, over) at done in cc)
          | inr (h, found) ↦
              let ms = read methods method_count in
              let a = (scan_slots-some max 0 ms h small found).1 in
              let r : InterfaceRef = record {
                object = object;
                interface_id = interface_id;
                version = version;
                method_count = h;
                entries = fill (λ m. m.entry) ms (replicate (slots max) 0);
                signatures = fill (λ m. m.signature) ms (replicate (slots max) zero_hash);
              } in
              rw (good, found)
                (dispatch r ms slot (below max h ms a) (fill-blank (λ m. m.entry) max h ms slot 0 a)
                  (fill-blank (λ m. m.signature) max h ms slot zero_hash a))
        ]
      ]

  -- On any other status the handle has no object and no slot of it is bound.
  pub resolve_methods-refused :
      (resolve_methods max interface_id version methods method_count object).0 ≢ ok
      → (resolve_methods max interface_id version methods method_count object).1 ≡ reset max
  unfolding resolve_methods
  resolve_methods-refused h =
      elim (Bool-cases (not (is_some object) || missing method_count methods)) [
        | inl bad ↦ rw bad refl
        | inr good ↦ elim (Option-cases (scan_slots max 0 (read methods method_count))) [
          | inl over ↦ rw (good, over) refl
          | inr (n, found) ↦ absurd (h (rw (good, found) refl))
        ]
      ]

-- A verified fetch hands out an adapter only for a bound slot whose recorded signature is the
-- expected one, or where none is expected; otherwise it reports why and hands out null.
pub verified_method_lem :
    (r : InterfaceRef) (slot : ℕ) (expected : InterfaceMethodHash)
    → (((verified_method r slot expected).0 ≡ ok)
        × (bound r slot ≡ true)
        × ((expected ≡ zero_hash) ⊎ (signature r slot ≡ expected))
        × ((verified_method r slot expected).1 ≡ method r slot)
        × (method r slot ≢ 0))
      ⊎ (((verified_method r slot expected).1 ≡ 0)
          × (((verified_method r slot expected).0 ≡ method_not_found) × (bound r slot ≡ false)
              ⊎ (((verified_method r slot expected).0 ≡ signature_mismatch)
                  × (signature r slot ≢ expected))))
unfolding verified_method verify bound signature method
verified_method_lem r slot expected =
    elim (Bool-cases (leb r.method_count slot || get_or r.entries slot 0 == 0)) [
      | inl unbound ↦ inr (rw (verified_method, verify, unbound) (refl, inl (refl, ground arith)))
      | inr there ↦
          elim (Bool-cases (
            not (eq_hash expected zero_hash)
            && not (eq_hash (get_or r.signatures slot zero_hash) expected))) [
              | inl differs ↦ inr (
                  rw (verified_method, verify, there, differs)
                    (refl, inr (refl, λ e. ground arith)))
              | inr agrees ↦ inl (
                  rw (verified_method, verify, there, agrees)
                    (refl, ground arith, trusted there agrees, rw there refl, ground arith))
            ]
    ]
  where
    trusted :
        (leb r.method_count slot || get_or r.entries slot 0 == 0) ≡ false
        → (not (eq_hash expected zero_hash)
            && not (eq_hash (get_or r.signatures slot zero_hash) expected))
          ≡ false
        → (expected ≡ zero_hash) ⊎ (signature r slot ≡ expected)
    trusted there agrees = elim (Bool-cases (eq_hash expected zero_hash)) [
      | inl unchecked ↦ inl (ground arith)
      | inr checked ↦
          let in_range : ltb slot r.method_count ≡ true = ground arith in
          inr (rw (signature, in_range) (ground arith))
    ]
