-- ===== src/Interface/ModuleRegistry/Refusals.antt =====
-- include/SKL/ABIX/Interface/ModuleRegistry.h: the tests of register_module, and why it refuses a module.
use abix.Prelude.{
  ℕ, zero, suc, none, ◌+◌, ◌<◌, ◌≡◌, ◌≢◌, refl, subst, arith, Bool, true, false, ◌||◌, ◌&&◌, ◌==◌,
  List, [], ◌∷◌, some, length, get_elem?, any, Bool-cases, inl, inr,
}
use abix.Util.Hash.{Hash128, eq_hash}
use abix.Metadata.Descriptor.{read}
use abix.Interface.Module.{InterfaceManifestEntry, ModuleManifest}
use abix.Interface.Lease.{loading, ModuleControl, activate_state, activate_module}
use abix.Interface.ModuleRegistry.{
  ModuleStatus, ModuleSlot, ModuleRegistry, Loader, is_control, same_version, has_duplicate,
  free_slot, is_validated,
}

neither : (a b : Bool) → a || b ≡ false → (a ≡ false) × (b ≡ false)
neither true b h = cc
neither false b h = (refl, h)

pub any-none :
    {A : Type 0} (f : A → Bool) (xs : List A) (k : ℕ) (x : A)
    → any f xs ≡ false
    → get_elem? xs k ≡ some x
    → f x ≡ false
any-none f [] k x h at = cc
any-none f (y ∷ xs) zero x h at =
    let same : y ≡ x = cc in
    let (first, rest) = neither (f y) (any f xs) h in subst (λ z. f z ≡ false) same first
any-none f (y ∷ xs) (suc k) x h at =
    let (first, rest) = neither (f y) (any f xs) h in any-none f xs k x rest at

-- Two entries at different places differ in their interface or in its version.
pub has_duplicate-none :
    (es : List InterfaceManifestEntry) (i j : ℕ) (a b : InterfaceManifestEntry)
    → has_duplicate es ≡ false
    → i < j
    → get_elem? es i ≡ some a
    → get_elem? es j ≡ some b
    → same_version a b ≡ false
unfolding has_duplicate
has_duplicate-none [] i j a b h lt at at' = cc
has_duplicate-none (e ∷ es) i zero a b h lt at at' = absurd (omega (arith, lt))
has_duplicate-none (e ∷ es) zero (suc j) a b h lt at at' =
    let (first, rest) = neither (any (same_version e) es) (has_duplicate es) h in
    let same : e ≡ a = cc in
    subst (λ z. same_version z b ≡ false) same (any-none (same_version e) es j b first at')
has_duplicate-none (e ∷ es) (suc i) (suc j) a b h lt at at' =
    let (first, rest) = neither (any (same_version e) es) (has_duplicate es) h in
    has_duplicate-none es i j a b rest (omega (arith, lt)) at at'

eq_hash_refl : (x : Hash128) → eq_hash x x ≡ true
eq_hash_refl x = ground arith

pub same_version-≢ :
    (a b : InterfaceManifestEntry)
    → same_version a b ≡ false
    → a.interface_id ≡ b.interface_id
    → a.interface_version ≢ b.interface_version
same_version-≢ a b h id version =
    let ids : eq_hash a.interface_id b.interface_id ≡ true =
      subst (λ x. eq_hash a.interface_id x ≡ true) id (eq_hash_refl a.interface_id) in
    let versions : (a.interface_version == b.interface_version) ≡ true = ground (arith, version) in
    let bad : true ≡ false = rw (ids, versions) at h in absurd (cc)

eq_hash-≡ : (x y : Hash128) → eq_hash x y ≡ true → x ≡ y
eq_hash-≡ x y h =
    let lows : x.lo ≡ y.lo = ground (arith, h) in
    let highs : x.hi ≡ y.hi = ground (arith, h) in λ i. record { lo = lows i; hi = highs i }

both_true : (a b : Bool) → a && b ≡ true → (a ≡ true) × (b ≡ true)
both_true true b h = (refl, h)
both_true false b h = cc

pub any-found :
    {A : Type 0} (f : A → Bool) (xs : List A)
    → any f xs ≡ true
    → (k : ℕ) × (x : A) × (get_elem? xs k ≡ some x) × (f x ≡ true)
any-found f [] h = cc
any-found f (y ∷ xs) h = elim (Bool-cases (f y)) [
  | inl first ↦ (zero, y, refl, first)
  | inr later ↦
      let h' : any f xs ≡ true = rw later at h in
      let (k, x, at, holds) = any-found f xs h' in (suc k, x, at, holds)
]

-- Two places of a manifest with one interface in one version.
pub record Twice (es : List InterfaceManifestEntry) : Type 0 where
  pub i : ℕ
  pub j : ℕ
  pub a : InterfaceManifestEntry
  pub b : InterfaceManifestEntry
  pub apart : i < j
  pub first : get_elem? es i ≡ some a
  pub second : get_elem? es j ≡ some b
  pub same_id : a.interface_id ≡ b.interface_id
  pub same_number : a.interface_version ≡ b.interface_version

pub has_duplicate-Twice : (es : List InterfaceManifestEntry) → has_duplicate es ≡ true → Twice es
unfolding has_duplicate
has_duplicate-Twice [] h = cc
has_duplicate-Twice (e ∷ es) h = elim (Bool-cases (any (same_version e) es)) [
  | inl here ↦
      let (k, x, at, same) = any-found (same_version e) es here in
      let (ids, versions) =
        both_true (eq_hash e.interface_id x.interface_id)
          (e.interface_version == x.interface_version) same in
      record {
        i = zero;
        j = suc k;
        a = e;
        b = x;
        apart = omega arith;
        first = refl;
        second = at;
        same_id = eq_hash-≡ e.interface_id x.interface_id ids;
        same_number = ground (arith, versions);
      }
  | inr later ↦
      let h' : has_duplicate es ≡ true = rw later at h in
      let t = has_duplicate-Twice es h' in
      record {
        i = suc t.i;
        j = suc t.j;
        a = t.a;
        b = t.b;
        apart = let lt = t.apart in omega (arith, lt);
        first = t.first;
        second = t.second;
        same_id = t.same_id;
        same_number = t.same_number;
      }
]

used_at :
    (s x : ModuleSlot) (ss : List ModuleSlot)
    → x.used ≡ true
    → ((n : ℕ) → get_elem? ss n ≡ some s → s.used ≡ true)
    → (k : ℕ) → get_elem? (x ∷ ss) k ≡ some s
    → s.used ≡ true
used_at s x ss used rest zero at =
    let same : x ≡ s = cc in subst (λ (y : ModuleSlot). y.used ≡ true) same used
used_at s x ss used rest (suc n) at = rest n at

pub free_slot-none :
    (i : ℕ) (ss : List ModuleSlot) (k : ℕ) (s : ModuleSlot)
    → free_slot i ss ≡ none
    → get_elem? ss k ≡ some s
    → s.used ≡ true
unfolding free_slot
free_slot-none i [] k s h at = cc
free_slot-none i (x ∷ ss) k s h at = elim (Bool-cases x.used) [
  | inr free ↦ let bad : some i ≡ none = rw free at h in absurd (cc)
  | inl used ↦
      let rest : free_slot (i + 1) ss ≡ none = rw used at h in
      used_at s x ss used (λ n there. free_slot-none (i + 1) ss n s rest there) k at
]

pub activate_module-refused :
    (control : ModuleControl) → (activate_module control).0 ≡ false → control.state ≢ loading
unfolding activate_module activate_state
activate_module-refused control h e = let bad : true ≡ false = rw e at h in absurd (cc)

-- Why a registration is refused, with the status that says so.
pub data Refused (interface_capacity : ℕ) (r : ModuleRegistry) (l : Loader) (c : ℕ)
    (manifest : ModuleManifest) : ModuleStatus → Type 0 where
  malformed :
      is_validated manifest ≡ false
      → Refused interface_capacity r l c manifest ModuleStatus.invalid_manifest
  recorded_before :
      (k : ℕ) (s : ModuleSlot)
      → get_elem? r.slots k ≡ some s
      → is_control c s ≡ true
      → Refused interface_capacity r l c manifest ModuleStatus.already_registered
  repeated :
      Twice (read manifest.interfaces manifest.interface_count)
      → Refused interface_capacity r l c manifest ModuleStatus.duplicate_interface
  counted_full :
      r.module_count ≡ length r.slots
      → Refused interface_capacity r l c manifest ModuleStatus.capacity_exceeded
  all_used :
      ((k : ℕ) (s : ModuleSlot) → get_elem? r.slots k ≡ some s → s.used ≡ true)
      → Refused interface_capacity r l c manifest ModuleStatus.capacity_exceeded
  no_room :
      interface_capacity < length r.interfaces + manifest.interface_count
      → Refused interface_capacity r l c manifest ModuleStatus.interface_capacity_exceeded
  not_loading :
      (l.controls c).state ≢ loading
      → Refused interface_capacity r l c manifest ModuleStatus.invalid_state
