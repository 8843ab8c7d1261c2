-- ===== src/Runtime/Search/Probe.antt =====
-- The walk of Runtime/Search.h through occupied slots, by linear probing.
use abix.Prelude.{
  ℕ, ◌+◌, ◌≡◌, ◌≢◌, ◌⊎◌, refl, sym, subst, arith, bit_and, Bool-cases, ◌==◌, inl, inr,
}
use abix.Runtime.Search.{HashSlot, put}

abbrev pub after : ℕ → ℕ → ℕ
after mask p = bit_and (p + 1) mask

abbrev pub IsFree : (ℕ → HashSlot) → ℕ → Type 0
IsFree slots p = (slots p).index_plus1 ≡ 0

-- From one position to another through occupied slots, the last one aside.
pub data Run (mask : ℕ) (slots : ℕ → HashSlot) : ℕ → ℕ → Type 0 where
  here : (p : ℕ) → Run mask slots p p
  onward :
      (p q : ℕ) → (slots p).index_plus1 ≢ 0 → Run mask slots (after mask p) q → Run mask slots p q

module _ (mask : ℕ) (slots : ℕ → HashSlot) where
  pub Run_stays : (p q : ℕ) → IsFree slots p → Run mask slots p q → p ≡ q
  Run_stays _ _ free (here p) = refl
  Run_stays _ _ free (onward p q taken run) = absurd (taken free)

  pub Run_cases : (p q : ℕ) → Run mask slots p q → (p ≡ q) ⊎ Run mask slots (after mask p) q
  Run_cases _ _ (here p) = inl refl
  Run_cases _ _ (onward p q taken run) = inr run

  pub Run_joined : (p q r : ℕ) → Run mask slots p q → Run mask slots q r → Run mask slots p r
  Run_joined _ _ r (here p) more = more
  Run_joined _ _ r (onward p q taken run) more =
      onward p r taken (Run_joined (after mask p) q r run more)

  -- Of two positions on one walk, one comes first.
  pub Run_forks :
      (p q r : ℕ)
      → Run mask slots p q
      → Run mask slots p r
      → Run mask slots q r ⊎ Run mask slots r q
  Run_forks _ _ r (here p) other = inl other
  Run_forks _ _ r (onward p q taken run) other = elim (Run_cases p r other) [
    | inl same ↦ inr (subst (λ s. Run mask slots s q) same (onward p q taken run))
    | inr rest ↦ Run_forks (after mask p) q r run rest
  ]

  -- A walk that meets a free slot does not come back.
  pub Run_acyclic :
      (p e : ℕ)
      → Run mask slots p e
      → IsFree slots e
      → (slots p).index_plus1 ≢ 0
      → Run mask slots (after mask p) p
      → ⊥
  Run_acyclic _ _ (here p) free taken back = taken free
  Run_acyclic _ _ (onward p e taken run) free taken' back = elim (Run_cases (after mask p) p back) [
    | inl same ↦
        Run_acyclic (after mask p) e run free
          (subst (λ q. (slots q).index_plus1 ≢ 0) (sym same) taken)
          (subst (λ q. Run mask slots (after mask q) q) (sym same) back)
    | inr rest ↦
        let step = onward p (after mask p) taken (here (after mask p)) in
        elim (Bool-cases ((slots (after mask p)).index_plus1 == 0)) [
          | inl free' ↦
              let same = Run_stays (after mask p) p (ground (arith, free')) back in
              absurd (taken (subst (λ q. IsFree slots q) same (ground (arith, free'))))
          | inr busy ↦
              Run_acyclic (after mask p) e run free (λ z. ground (arith, busy, z))
                (Run_joined (after mask (after mask p)) p (after mask p) rest step)
        ]
  ]

-- A slot that is taken stays taken.
pub Run_grows :
    (mask : ℕ) (slots : ℕ → HashSlot) (e : ℕ) (v : HashSlot) (p q : ℕ)
    → v.index_plus1 ≢ 0
    → Run mask slots p q
    → Run mask (put slots e v) p q
Run_grows mask slots e v _ _ full (here p) = here p
Run_grows mask slots e v _ _ full (onward p q taken run) =
    onward p q (still full) (Run_grows mask slots e v (after mask p) q full run)
  where
    still : v.index_plus1 ≢ 0 → (put slots e v p).index_plus1 ≢ 0
    still full' z = elim (Bool-cases (p == e)) [
      | inl hit ↦ full' (rw hit at z)
      | inr miss ↦ taken (rw miss at z)
    ]
