-- ===== src/Prelude/Search.antt =====
-- The two scans of the registries: the first element that passes a test, and the newest one.
use Prim.Native.Nat.{ℕ, ◌≤◌}
use mathlib.Core.Path.{◌≡◌, refl, sym, ◌∙◌}
use mathlib.Core.Bool.{Bool, true, false}
use mathlib.Core.List.{List, [], ◌∷◌, ◌++◌}
use mathlib.Core.Logic.{◌⊎◌, inl, inr}
use mathlib.Core.Option.{Option, none, some}
use native.Mathlib.Nat.{le_trans}
use native.Mathlib.Omega.{arith}
use mathlib.Core.List.{Memᴰ}
use mathlib.Core.List.Memᴰ
use abix.Prelude.Tests.{if◌then◌else◌, leb, Bool-cases}

abbrev pub is_some {ℓ} : {A : Type ℓ} → Option A → Bool
is_some none = false
is_some (some a) = true

module _ {ℓ} {A : Type ℓ} where
  unfoldable pub find : (A → Bool) → List A → Option A
  find p [] = none
  find p (x ∷ xs) = if p x then some x else find p xs

  -- A scan of two lists goes on to the second only from a miss in the first.
  pub find-append :
      (p : A → Bool) (xs ys : List A)
      → find p (xs ++ ys) ≡ (if is_some (find p xs) then find p xs else find p ys)
  unfolding find
  find-append p [] ys = refl
  find-append p (x ∷ xs) ys = ground (arith, find-append p xs ys)

  pub find-eq-some :
      (p : A → Bool) (xs : List A) (a : A) → find p xs ≡ some a → (p a ≡ true) × Memᴰ a xs
  unfolding find
  find-eq-some p [] a h = cc
  find-eq-some p (x ∷ xs) a h = elim (Bool-cases (p x)) [
    | inl hit ↦ let same : a ≡ x = ground arith in (rw same hit, Memᴰ.head same)
    | inr miss ↦ let rest = find-eq-some p xs a (ground arith) in (rest.0, Memᴰ.tail rest.1)
  ]

  pub find-eq-none :
      (p : A → Bool) (xs : List A) (a : A) → find p xs ≡ none → Memᴰ a xs → p a ≡ false
  unfolding find
  find-eq-none p [] a h i = elim i [ ]
  find-eq-none p (x ∷ xs) a h (Memᴰ.head e) = rw e (ground arith)
  find-eq-none p (x ∷ xs) a h (Memᴰ.tail i) = find-eq-none p xs a (ground arith) i

  -- The loop `if (!best || entry.version >= best->version) best = &entry`.
  abbrev pub better : (A → ℕ) → A → Option A → Option A
  better version x none = some x
  better version x (some b) = if leb (version b) (version x) then some x else some b

  unfoldable pub newest_from : (A → Bool) → (A → ℕ) → Option A → List A → Option A
  newest_from p version best [] = best
  newest_from p version best (x ∷ xs) =
      newest_from p version (if p x then better version x best else best) xs

  unfoldable pub newest : (A → Bool) → (A → ℕ) → List A → Option A
  unfolding newest_from
  newest p version xs = newest_from p version none xs

  module _ (p : A → Bool) (version : A → ℕ) where
    -- What the loop's result is worth: nothing passes the test, or the result stands in the list,
    -- passes, and no element that passes is newer.
    abbrev pub IsNewest : List A → Option A → Type ℓ
    IsNewest xs none = (a : A) → Memᴰ a xs → p a ≡ false
    IsNewest xs (some b) =
        (p b ≡ true) × Memᴰ b xs × ((a : A) → Memᴰ a xs → p a ≡ true → version a ≤ version b)

    -- The same, for a loop that starts with a candidate.
    abbrev NewestFrom : Option A → List A → Option A → Type ℓ
    NewestFrom best xs none = (best ≡ none) × ((a : A) → Memᴰ a xs → p a ≡ false)
    NewestFrom best xs (some b) =
        ((best ≡ some b) ⊎ ((p b ≡ true) × Memᴰ b xs))
        × ((c : A) → best ≡ some c → version c ≤ version b)
        × ((a : A) → Memᴰ a xs → p a ≡ true → version a ≤ version b)

    step_best : Option A → A → Option A
    step_best best x = if p x then better version x best else best

    step-origin :
        (best : Option A) (x : A)
        → (step_best best x ≡ best) ⊎ ((p x ≡ true) × (step_best best x ≡ some x))
    unfolding step_best
    step-origin none x = elim (Bool-cases (p x)) [
      | inl hit ↦ inr (hit, rw hit)
      | inr miss ↦ inl (rw miss)
    ]
    step-origin (some b) x = elim (Bool-cases (p x)) [
      | inl hit ↦ elim (Bool-cases (leb (version b) (version x))) [
        | inl newer ↦ inr (hit, rw (hit, newer))
        | inr older ↦ inl (rw (hit, older))
      ]
      | inr miss ↦ inl (rw miss)
    ]

    -- The candidate never gets older, and is at least as new as an element that passes.
    step-best :
        (best : Option A) (x c : A)
        → best ≡ some c
        → (d : A) × (step_best best x ≡ some d) × (version c ≤ version d)
    unfolding step_best
    step-best none x c e = cc
    step-best (some b) x c e = elim (Bool-cases (p x)) [
      | inl hit ↦ elim (Bool-cases (leb (version b) (version x))) [
        | inl newer ↦ (x, rw (hit, newer), ground arith)
        | inr older ↦ (b, rw (hit, older), ground arith)
      ]
      | inr miss ↦ (b, rw miss, ground arith)
    ]

    step-head :
        (best : Option A) (x : A)
        → p x ≡ true
        → (d : A) × (step_best best x ≡ some d) × (version x ≤ version d)
    unfolding step_best
    step-head none x hit = (x, rw hit, omega arith)
    step-head (some b) x hit = elim (Bool-cases (leb (version b) (version x))) [
      | inl newer ↦ (x, rw (hit, newer), omega arith)
      | inr older ↦ (b, rw (hit, older), ground arith)
    ]

    step-some :
        (best : Option A) (x b : A) (xs : List A)
        → NewestFrom (step_best best x) xs (some b)
        → NewestFrom best (x ∷ xs) (some b)
    step-some best x b xs (from, over, above) = (origin from (step-origin best x), kept, all)
      where
        origin :
            (step_best best x ≡ some b) ⊎ ((p b ≡ true) × Memᴰ b xs)
            → (step_best best x ≡ best) ⊎ ((p x ≡ true) × (step_best best x ≡ some x))
            → (best ≡ some b) ⊎ ((p b ≡ true) × Memᴰ b (x ∷ xs))
        origin (inl e) (inl same) = inl (sym same ∙ e)
        origin (inl e) (inr (hit, new)) = let eq : b ≡ x = cc in inr (rw eq hit, Memᴰ.head eq)
        origin (inr (hit, i)) _ = inr (hit, Memᴰ.tail i)

        kept : (c : A) → best ≡ some c → version c ≤ version b
        kept c e = let (d, step, le) = step-best best x c e in le_trans le (over d step)

        all : (a : A) → Memᴰ a (x ∷ xs) → p a ≡ true → version a ≤ version b
        all a (Memᴰ.head e) hit =
            let (d, step, le) = step-head best x (rw e at hit) in rw e (le_trans le (over d step))
        all a (Memᴰ.tail i) hit = above a i hit

    step-none :
        (best : Option A) (x : A) (xs : List A)
        → NewestFrom (step_best best x) xs none
        → NewestFrom best (x ∷ xs) none
    unfolding step_best
    step-none best x xs (empty, misses) = elim (Bool-cases (p x)) [
      | inl hit ↦ let (d, e, _) = step-head best x hit in absurd (cc)
      | inr miss ↦ (
        rw miss at empty,
        λ a i. elim (Memᴰ.cases_cons i) [ inl e ↦ rw e miss | inr j ↦ misses a j ],
      )
    ]

    newest_from-NewestFrom :
        (best : Option A) (xs : List A) → NewestFrom best xs (newest_from p version best xs)
    unfolding newest_from step_best
    newest_from-NewestFrom none [] = (refl, λ a i. elim i [ ])
    newest_from-NewestFrom (some b) [] =
        (inl refl, λ c e. let eq : b ≡ c = cc in rw eq (omega arith), λ a i. elim i [ ])
    newest_from-NewestFrom best (x ∷ xs) =
        go (newest_from p version (step_best best x) xs)
          (newest_from-NewestFrom (step_best best x) xs)
      where
        go : (r : Option A) → NewestFrom (step_best best x) xs r → NewestFrom best (x ∷ xs) r
        go none h = step-none best x xs h
        go (some b) h = step-some best x b xs h

    -- The newest-version scan finds an element that passes with no newer one, or reports that none
    -- passes.
    pub newest-IsNewest : (xs : List A) → IsNewest xs (newest p version xs)
    unfolding newest
    newest-IsNewest xs = go (newest_from p version none xs) (newest_from-NewestFrom none xs)
      where
        go : (r : Option A) → NewestFrom none xs r → IsNewest xs r
        go none (_, misses) = misses
        go (some b) (inl e, _, _) = absurd (cc)
        go (some b) (inr (hit, i), _, above) = (hit, i, above)
