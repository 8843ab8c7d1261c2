-- ===== src/Interface/ModuleRegistry/Unload.antt =====
-- What unregister_module leaves in the array of interfaces.
use abix.Prelude.{
  ℕ, zero, suc, ◌+◌, ◌-◌, ◌≡◌, ◌≢◌, refl, sym, subst, ap, ◌∙◌, arith, true, false, ◌==◌,
  if◌then◌else◌, List, [], ◌∷◌, ◌++◌, append_assoc, Option, none, some, length, length-append,
  get_elem?, set, take, All, Bool-cases, inl, inr,
}
use abix.Interface.ModuleRegistry.{
  ModuleInterface, ModuleStatus, ModuleSlot, ModuleRegistry, Loader, find_slot, shift_down, compact,
  unload, unregister_module,
}

-- The elements that are not of a module, in their order.
unfoldable pub without : ℕ → List ModuleInterface → List ModuleInterface
without id [] = []
without id (m ∷ ms) = let rest = without id ms in if m.module_id == id then rest else m ∷ rest

without-append :
    (id : ℕ) (xs ys : List ModuleInterface) → without id (xs ++ ys) ≡ without id xs ++ without id ys
unfolding without
without-append id [] ys = refl
without-append id (x ∷ xs) ys = elim (Bool-cases (x.module_id == id)) [
  | inl hit ↦ rw (hit, without-append id xs ys) refl
  | inr miss ↦ rw (miss, without-append id xs ys) refl
]

without-same :
    (id : ℕ) (xs : List ModuleInterface) → All (λ m. m.module_id ≡ id) xs → without id xs ≡ []
unfolding without
without-same id [] h = refl
without-same id (x ∷ xs) h =
    let hit : (x.module_id == id) ≡ true = ground (arith, h.0) in
    rw (hit, without-same id xs h.1) refl

without-other :
    (id : ℕ) (xs : List ModuleInterface) → All (λ m. m.module_id ≢ id) xs → without id xs ≡ xs
unfolding without
without-other id [] h = refl
without-other id (x ∷ xs) h = rw (miss, without-other id xs h.1) refl
  where
    miss : (x.module_id == id) ≡ false
    miss = elim (Bool-cases (x.module_id == id)) [
      | inl hit ↦ absurd (h.0 (ground (arith, hit)))
      | inr other ↦ other
    ]

get-middle :
    (p : List ModuleInterface) (x : ModuleInterface) (s : List ModuleInterface) (i : ℕ)
    → i ≡ length p
    → get_elem? (p ++ x ∷ s) i ≡ some x
get-middle [] x s zero e = refl
get-middle [] x s (suc i) e = absurd (omega (arith, e))
get-middle (y ∷ p) x s zero e = absurd (omega (arith, e))
get-middle (y ∷ p) x s (suc i) e = get-middle p x s i (omega (arith, e))

set-middle :
    (p : List ModuleInterface) (x y : ModuleInterface) (s : List ModuleInterface) (i : ℕ)
    → i ≡ length p
    → set (p ++ x ∷ s) i y ≡ p ++ y ∷ s
set-middle [] x y s zero e = refl
set-middle [] x y s (suc i) e = absurd (omega (arith, e))
set-middle (z ∷ p) x y s zero e = absurd (omega (arith, e))
set-middle (z ∷ p) x y s (suc i) e = ap (λ ys. z ∷ ys) (set-middle p x y s i (omega (arith, e)))

-- One element moved down over a middle part: the middle part keeps its length.
record Moved (p m : List ModuleInterface) (x : ModuleInterface) (s xs : List ModuleInterface)
    : Type 0 where
  middle : List ModuleInterface
  written : xs ≡ p ++ x ∷ (middle ++ s)
  sized : length middle ≡ length m

moved :
    (p m : List ModuleInterface) (x : ModuleInterface) (s : List ModuleInterface)
    → Moved p m x s (set (p ++ (m ++ x ∷ s)) (length p) x)
moved p [] x s = record { middle = []; written = set-middle p x x s (length p) refl; sized = refl }
moved p (y ∷ m) x s = record {
  middle = m ++ x ∷ [];
  written =
      set-middle p y x (m ++ x ∷ s) (length p) refl
      ∙ ap (λ ys. p ++ x ∷ ys) (sym (append_assoc m (x ∷ []) s));
  sized = omega (arith, length-append m (x ∷ []));
}

shift_down-suc :
    (count i left : ℕ) (xs : List ModuleInterface) (x : ModuleInterface)
    → get_elem? xs (i + count) ≡ some x
    → shift_down count i (suc left) xs ≡ shift_down count (i + 1) left (set xs i x)
unfolding shift_down
shift_down-suc count i left xs x found =
    ap (λ o. shift_down count (i + 1) left (elim o [ none ↦ xs | some y ↦ set xs i y ])) found

-- The loop moves the part behind over the middle part.
record Shifted (p m s xs : List ModuleInterface) : Type 0 where
  rest : List ModuleInterface
  written : xs ≡ p ++ (s ++ rest)

shift_down-Shifted :
    (s p m : List ModuleInterface) (count i : ℕ)
    → count ≡ length m
    → i ≡ length p
    → Shifted p m s (shift_down count i (length s) (p ++ (m ++ s)))
unfolding shift_down
shift_down-Shifted [] p m count i e f = record { rest = m ++ []; written = refl }
shift_down-Shifted (x ∷ s) p m count i e f =
    let one = moved p m x s in
    let found : get_elem? (p ++ (m ++ x ∷ s)) (i + count) ≡ some x =
      subst (λ ys. get_elem? ys (i + count) ≡ some x) (append_assoc p m (x ∷ s))
        (get-middle (p ++ m) x s (i + count) (omega (arith, e, f, length-append p m))) in
    let here : set (p ++ (m ++ x ∷ s)) i x ≡ (p ++ x ∷ []) ++ (one.middle ++ s) =
      subst (λ j. set (p ++ (m ++ x ∷ s)) j x ≡ (p ++ x ∷ []) ++ (one.middle ++ s)) (sym f)
        (one.written ∙ sym (append_assoc p (x ∷ []) (one.middle ++ s))) in
    let later =
      shift_down-Shifted s (p ++ x ∷ []) one.middle count (i + 1) (omega (arith, e, one.sized))
        (omega (arith, f, length-append p (x ∷ []))) in
    record {
      rest = later.rest;
      written =
          shift_down-suc count i (length s) (p ++ (m ++ x ∷ s)) x found
          ∙ ap (λ ys. shift_down count (i + 1) (length s) ys) here
          ∙ later.written
          ∙ append_assoc p (x ∷ []) (s ++ later.rest);
    }

take-append : (xs ys : List ModuleInterface) (n : ℕ) → n ≡ length xs → take n (xs ++ ys) ≡ xs
take-append [] ys zero e = refl
take-append [] ys (suc n) e = absurd (omega (arith, e))
take-append (x ∷ xs) ys zero e = absurd (omega (arith, e))
take-append (x ∷ xs) ys (suc n) e = ap (λ zs. x ∷ zs) (take-append xs ys n (omega (arith, e)))

-- The loop in place and the shorter count cut the middle part out.
pub compact_lem :
    (p m s : List ModuleInterface) → compact (length p) (length m) (p ++ (m ++ s)) ≡ p ++ s
unfolding compact
compact_lem p m s =
    let total : length (p ++ (m ++ s)) ≡ length p + (length m + length s) =
      omega (arith, length-append p (m ++ s), length-append m s) in
    let behind : length (p ++ (m ++ s)) - (length p + length m) ≡ length s = omega (arith, total) in
    let kept : length (p ++ (m ++ s)) - length m ≡ length (p ++ s) =
      omega (arith, total, length-append p s) in
    let shifted = shift_down-Shifted s p m (length m) (length p) refl refl in
    rw (behind, kept, shifted.written)
      (ap (λ ys. take (length (p ++ s)) ys) (sym (append_assoc p s shifted.rest))
        ∙ take-append (p ++ s) shifted.rest (length (p ++ s)) refl)

-- The slot's range of the array holds the module's interfaces, and no other place does.
pub record Owns (id : ℕ) (slot : ModuleSlot) (interfaces : List ModuleInterface) : Type 0 where
  pub before : List ModuleInterface
  pub mine : List ModuleInterface
  pub after : List ModuleInterface
  pub parts : interfaces ≡ before ++ (mine ++ after)
  pub starts : slot.begin ≡ length before
  pub sized : slot.count ≡ length mine
  pub own : All (λ m. m.module_id ≡ id) mine
  pub others_before : All (λ m. m.module_id ≢ id) before
  pub others_after : All (λ m. m.module_id ≢ id) after

pub compact-without :
    (id : ℕ) (slot : ModuleSlot) (interfaces : List ModuleInterface)
    → Owns id slot interfaces
    → compact slot.begin slot.count interfaces ≡ without id interfaces
compact-without id slot interfaces o =
    let cut : compact slot.begin slot.count interfaces ≡ o.before ++ o.after =
      rw (o.parts, o.starts, o.sized) (compact_lem o.before o.mine o.after) in
    let kept : without id (o.before ++ (o.mine ++ o.after)) ≡ o.before ++ o.after =
      rw
        (
          without-append id o.before (o.mine ++ o.after),
          without-append id o.mine o.after,
          without-same id o.mine o.own,
          without-other id o.before o.others_before,
          without-other id o.after o.others_after,
        )
        refl in
    cut ∙ sym (ap (λ ms. without id ms) o.parts ∙ kept)

pub unregister_module-unload :
    (seen : ℕ → ℕ) (max_spins : ℕ) (r : ModuleRegistry) (l : Loader) (id c index : ℕ)
    (slot : ModuleSlot)
    → find_slot l.ids id 0 r.slots ≡ some (index, slot)
    → slot.control ≡ some c
    → unregister_module seen max_spins r l id ≡ unload seen max_spins r l index slot (some c)
unfolding unregister_module
unregister_module-unload seen max_spins r l id c index slot found at =
    ap
      (λ (o : Option (ℕ × ModuleSlot)). elim o [
        | none ↦ (ModuleStatus.not_registered, r, l)
        | some (i, s) ↦ unload seen max_spins r l i s s.control
      ])
      found
    ∙ ap (λ k. unload seen max_spins r l index slot k) at
