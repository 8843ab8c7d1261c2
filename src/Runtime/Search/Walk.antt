-- ===== src/Runtime/Search/Walk.antt =====
-- The walks of the lookups of Runtime/Search.h, and the entries that pass a test.
use abix.Prelude.{
  ℕ, zero, suc, ◌+◌, ◌<◌, ◌≡◌, ◌≢◌, refl, sym, subst, ◌∙◌, arith, bit_and, Bool, true, false,
  Bool-cases, ◌==◌, inl, inr, List, [], ◌∷◌, some, length, get_elem?,
}
use abix.Runtime.Search.{Entry, HashSlot}
use abix.Runtime.Search.Probe.{after, IsFree, Run, Run_stays, Run_cases, Run_joined, Run_acyclic}
use abix.Runtime.Search.Built.{Built, get_elem?-some, place-taken}
use abix.Runtime.Search.First.{NoneUpTo, NoneAt}

-- Every entry that passes lies ahead.
abbrev pub AheadOf :
    (es : List Entry) (capacity mask : ℕ) (slots : ℕ → HashSlot)
    → Built es capacity mask (length es) slots
    → (Entry → Bool)
    → ℕ
    → Type 0
AheadOf es capacity mask slots b good pos =
    (j : ℕ) (e : Entry) → get_elem? es j ≡ some e → good e ≡ true → Run mask slots pos (b.place j)

-- What stands at a position of the walk.
pub data Sight (es : List Entry) (slots : ℕ → HashSlot) (good : Entry → Bool) (pos : ℕ)
    (Ahead : Type 0) : Type 0 where
  ended : IsFree slots pos → NoneAt good es → Sight es slots good pos Ahead
  hit :
      (i : ℕ) (e : Entry)
      → get_elem? es i ≡ some e
      → slots pos ≡ record { hash = e.name_hash; index_plus1 = i + 1 }
      → good e ≡ true
      → NoneUpTo good es i
      → Sight es slots good pos Ahead
  miss :
      (i : ℕ) (e : Entry)
      → get_elem? es i ≡ some e
      → slots pos ≡ record { hash = e.name_hash; index_plus1 = i + 1 }
      → good e ≡ false
      → Ahead
      → Sight es slots good pos Ahead

module _ (es : List Entry) (capacity mask : ℕ) (slots : ℕ → HashSlot)
    (b : Built es capacity mask (length es) slots) (good : Entry → Bool) (nh : ℕ)
    (hashed : (e : Entry) → good e ≡ true → e.name_hash ≡ nh) where
  get_elem?-lt : (xs : List Entry) (j : ℕ) (e : Entry) → get_elem? xs j ≡ some e → j < length xs
  get_elem?-lt [] j e at = cc
  get_elem?-lt (x ∷ xs) zero e at = omega arith
  get_elem?-lt (x ∷ xs) (suc j) e at = let rest = get_elem?-lt xs j e at in omega (arith, rest)

  -- Two entries of one slot are one.
  same_place :
      (i j : ℕ) (d e : Entry)
      → get_elem? es i ≡ some d
      → get_elem? es j ≡ some e
      → b.place i ≡ b.place j
      → i ≡ j
  same_place i j d e at at' same =
      let left = b.stored i d (get_elem?-lt es i d at) at in
      let right = b.stored j e (get_elem?-lt es j e at') at' in
      let both : (slots (b.place j)).index_plus1 ≡ i + 1 =
        subst (λ p. (slots p).index_plus1 ≡ i + 1) same (rw left refl) in
      let other : (slots (b.place j)).index_plus1 ≡ j + 1 = rw right refl in
      omega (arith, both, other)

  pub ahead_first : AheadOf es capacity mask slots b good (bit_and nh mask)
  ahead_first j e at passes =
      subst (λ h. Run mask slots (bit_and h mask) (b.place j)) (hashed e passes)
        (b.reached j e (get_elem?-lt es j e at) at)

  module _ (pos stop : ℕ) (low : pos < capacity) (run : Run mask slots pos stop)
      (free : IsFree slots stop) (ahead : AheadOf es capacity mask slots b good pos) where
    none_left : IsFree slots pos → NoneAt good es
    none_left empty j d at = elim (Bool-cases (good d)) [
      | inl passes ↦
          let same = Run_stays mask slots pos (b.place j) empty (ahead j d at passes) in
          absurd (
            place-taken es capacity mask (length es) j d slots b (get_elem?-lt es j d at) at
              (subst (λ p. IsFree slots p) same empty))
      | inr fails ↦ fails
    ]

    first_here :
        (i : ℕ) (e : Entry)
        → get_elem? es i ≡ some e
        → b.place i ≡ pos
        → good e ≡ true
        → NoneUpTo good es i
    first_here i e at here passes j d low' at' = elim (Bool-cases (good d)) [
      | inr fails ↦ fails
      | inl other ↦
          let same_hash : d.name_hash ≡ e.name_hash = hashed d other ∙ sym (hashed e passes) in
          let back : Run mask slots (b.place j) pos =
            subst (λ p. Run mask slots (b.place j) p) here
              (b.ordered j i d e low' (get_elem?-lt es i e at) at' at same_hash) in
          let full : (slots pos).index_plus1 ≢ 0 =
            subst (λ p. (slots p).index_plus1 ≢ 0) here
              (place-taken es capacity mask (length es) i e slots b (get_elem?-lt es i e at) at) in
          elim (Run_cases mask slots pos (b.place j) (ahead j d at' other)) [
            | inl same ↦ absurd (apart j i low' (same_place i j e d at at' (here ∙ same)))
            | inr around ↦ absurd (
                Run_acyclic mask slots pos stop run free full
                  (Run_joined mask slots (after mask pos) (b.place j) pos around back))
          ]
    ]
      where
        apart : (j i : ℕ) → j < i → i ≡ j → ⊥
        apart j i lt same = omega (arith, lt, same)

    still_ahead :
        (i : ℕ) (e : Entry)
        → get_elem? es i ≡ some e
        → b.place i ≡ pos
        → good e ≡ false
        → AheadOf es capacity mask slots b good (after mask pos)
    still_ahead i e at here fails j d at' passes =
        elim (Run_cases mask slots pos (b.place j) (ahead j d at' passes)) [
          | inl same ↦
              let one = same_place i j e d at at' (here ∙ same) in
              let at_i : get_elem? es i ≡ some d =
                subst (λ k. get_elem? es k ≡ some d) (sym one) at' in
              let equal : e ≡ d = cc in
              let bad : true ≡ false = sym passes ∙ subst (λ x. good x ≡ false) equal fails in cc
          | inr further ↦ further
        ]

    pub sight : Sight es slots good pos (AheadOf es capacity mask slots b good (after mask pos))
    sight = elim (Bool-cases ((slots pos).index_plus1 == 0)) [
      | inl empty ↦ let e : IsFree slots pos = ground (arith, empty) in ended e (none_left e)
      | inr full ↦
          let (i, within, here) = b.only pos low (λ z. ground (arith, full, z)) in
          let (e, at) = get_elem?-some es i within in
          let holds =
            subst (λ p. slots p ≡ record { hash = e.name_hash; index_plus1 = i + 1 }) here
              (b.stored i e within at) in
          elim (Bool-cases (good e)) [
            | inl passes ↦ hit i e at holds passes (first_here i e at here passes)
            | inr fails ↦ miss i e at holds fails (still_ahead i e at here fails)
          ]
    ]
