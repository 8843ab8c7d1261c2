-- ===== src/Runtime/Search/First.antt =====
-- The linear scans of Runtime/Search.h, and the first entry that passes their tests.
use abix.Prelude.{
  ℕ, zero, suc, ◌+◌, ◌<◌, ◌≡◌, refl, ◌∙◌, arith, Bool, true, false, ◌&&◌, Bool-cases, ◌==◌, inl,
  inr, List, [], ◌∷◌, none, some, get_elem?,
}
use abix.Binary.Image.{same_text}
use abix.Runtime.Search.{
  not_found, no_index, Entry, other_version, sig_result, scan_linear, scan_entries,
}

-- The tests of find and of lookup.
abbrev pub named : List ℕ → ℕ → Entry → Bool
named name nh e = e.name_hash == nh && same_text e.name name

abbrev pub signed : List ℕ → ℕ → ℕ → Entry → Bool
signed name nh sig e = (e.name_hash == nh && e.sig == sig) && same_text e.name name

abbrev pub NoneUpTo : (Entry → Bool) → List Entry → ℕ → Type 0
NoneUpTo good es i = (j : ℕ) (d : Entry) → j < i → get_elem? es j ≡ some d → good d ≡ false

abbrev pub NoneAt : (Entry → Bool) → List Entry → Type 0
NoneAt good es = (j : ℕ) (d : Entry) → get_elem? es j ≡ some d → good d ≡ false

later :
    (good : Entry → Bool) (e : Entry) (es : List Entry) (i : ℕ)
    → NoneUpTo good (e ∷ es) (suc i)
    → NoneUpTo good es i
later good e es i h j d low at = h (suc j) d (omega (arith, low)) at

pub both : (a b : Bool) → a && b ≡ true → (a ≡ true) × (b ≡ true)
both true b h = (refl, h)
both false b h = cc

module _ (name : List ℕ) (nh sig ver : ℕ) where
  scan_linear-skip :
      (e : Entry) (es : List Entry) (i : ℕ)
      → named name nh e ≡ false
      → scan_linear name nh sig ver i (e ∷ es) ≡ scan_linear name nh sig ver (i + 1) es
  unfolding scan_linear
  scan_linear-skip e es i h = elim (Bool-cases (e.name_hash == nh)) [
    | inl same ↦ elim (Bool-cases (same_text e.name name)) [
      | inl hit ↦ (let bad : true ≡ false = rw (same, hit) at h in cc)
      | inr miss ↦ rw (same, miss) refl
    ]
    | inr other ↦ rw other refl
  ]

  scan_linear-hit :
      (e : Entry) (es : List Entry) (i : ℕ)
      → named name nh e ≡ true
      → other_version ver e ≡ false
      → scan_linear name nh sig ver i (e ∷ es) ≡ sig_result sig e i
  unfolding scan_linear
  scan_linear-hit e es i h fits =
      let (same, hit) = both (e.name_hash == nh) (same_text e.name name) h in
      rw (same, hit, fits) refl

  pub scan_linear-none :
      (es : List Entry) (i : ℕ)
      → NoneAt (named name nh) es
      → scan_linear name nh sig ver i es ≡ (not_found, no_index)
  unfolding scan_linear
  scan_linear-none [] i h = refl
  scan_linear-none (e ∷ es) i h =
      scan_linear-skip e es i (h 0 e refl) ∙ scan_linear-none es (i + 1) (λ j d at. h (suc j) d at)

  pub scan_linear-first :
      (es : List Entry) (i j : ℕ) (e : Entry)
      → get_elem? es j ≡ some e
      → named name nh e ≡ true
      → other_version ver e ≡ false
      → NoneUpTo (named name nh) es j
      → scan_linear name nh sig ver i es ≡ sig_result sig e (i + j)
  scan_linear-first [] i j e at good fits h = cc
  scan_linear-first (d ∷ es) i zero e at good fits h =
      let one : e ≡ d = cc in
      let here : i + 0 ≡ i = omega arith in
      rw (here, one) (scan_linear-hit d es i (rw one at good) (rw one at fits))
  scan_linear-first (d ∷ es) i (suc j) e at good fits h =
      let there : i + suc j ≡ i + 1 + j = omega arith in
      rw there (
        scan_linear-skip d es i (h 0 d (omega arith) refl)
        ∙ scan_linear-first es (i + 1) j e at good fits (later (named name nh) d es j h))

module _ (name : List ℕ) (nh sig : ℕ) where
  scan_entries-skip :
      (e : Entry) (es : List Entry)
      → signed name nh sig e ≡ false
      → scan_entries name nh sig (e ∷ es) ≡ scan_entries name nh sig es
  unfolding scan_entries
  scan_entries-skip e es h = elim (Bool-cases (e.name_hash == nh)) [
    | inl same ↦ elim (Bool-cases (e.sig == sig)) [
      | inl agrees ↦ elim (Bool-cases (same_text e.name name)) [
        | inl hit ↦ (let bad : true ≡ false = rw (same, agrees, hit) at h in cc)
        | inr miss ↦ rw (same, agrees, miss) refl
      ]
      | inr differs ↦ rw (same, differs) refl
    ]
    | inr other ↦ rw other refl
  ]

  scan_entries-hit :
      (e : Entry) (es : List Entry)
      → signed name nh sig e ≡ true
      → scan_entries name nh sig (e ∷ es) ≡ some e
  unfolding scan_entries
  scan_entries-hit e es h =
      let (front, hit) = both (e.name_hash == nh && e.sig == sig) (same_text e.name name) h in
      let (same, agrees) = both (e.name_hash == nh) (e.sig == sig) front in
      rw (same, agrees, hit) refl

  pub scan_entries-none :
      (es : List Entry) → NoneAt (signed name nh sig) es → scan_entries name nh sig es ≡ none
  unfolding scan_entries
  scan_entries-none [] h = refl
  scan_entries-none (e ∷ es) h =
      scan_entries-skip e es (h 0 e refl) ∙ scan_entries-none es (λ j d at. h (suc j) d at)

  pub scan_entries-first :
      (es : List Entry) (j : ℕ) (e : Entry)
      → get_elem? es j ≡ some e
      → signed name nh sig e ≡ true
      → NoneUpTo (signed name nh sig) es j
      → scan_entries name nh sig es ≡ some e
  scan_entries-first [] j e at good h = cc
  scan_entries-first (d ∷ es) zero e at good h =
      let one : e ≡ d = cc in rw one (scan_entries-hit d es (rw one at good))
  scan_entries-first (d ∷ es) (suc j) e at good h =
      scan_entries-skip d es (h 0 d (omega arith) refl)
      ∙ scan_entries-first es j e at good (later (signed name nh sig) d es j h)
