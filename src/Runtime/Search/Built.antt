-- ===== src/Runtime/Search/Built.antt =====
-- The array of an index of Runtime/Search.h after some entries were inserted.
use abix.Prelude.{
  ℕ, zero, suc, ◌+◌, ◌<◌, ◌≡◌, ◌≢◌, refl, sym, subst, ◌∙◌, arith, bit_and, true, false, Bool-cases,
  ◌==◌, if◌then◌else◌, inl, inr, List, [], ◌∷◌, Option, some, length, get_elem?,
}
use abix.Runtime.Search.{Entry, HashSlot, put}
use abix.Runtime.Search.Probe.{IsFree, Run, Run_stays, Run_forks, Run_grows}
use abix.Runtime.Search.Free.{taken, taken-put}

-- Each of the first `n` entries stands in one slot, on the walk from its hash's position, entries of one
-- hash in their order, and nothing else stands in the array.
pub record Built (es : List Entry) (capacity mask n : ℕ) (slots : ℕ → HashSlot) : Type 0 where
  pub place : ℕ → ℕ
  pub inside : (j : ℕ) → j < n → place j < capacity
  pub stored :
      (j : ℕ) (e : Entry)
      → j < n
      → get_elem? es j ≡ some e
      → slots (place j) ≡ record { hash = e.name_hash; index_plus1 = j + 1 }
  pub reached :
      (j : ℕ) (e : Entry)
      → j < n
      → get_elem? es j ≡ some e
      → Run mask slots (bit_and e.name_hash mask) (place j)
  pub ordered :
      (i j : ℕ) (d e : Entry)
      → i < j
      → j < n
      → get_elem? es i ≡ some d
      → get_elem? es j ≡ some e
      → d.name_hash ≡ e.name_hash
      → Run mask slots (place i) (place j)
  pub only : (p : ℕ) → p < capacity → (slots p).index_plus1 ≢ 0 → (j : ℕ) × (j < n) × (place j ≡ p)
  pub counted : taken slots capacity ≡ n

pub get_elem?-some :
    (es : List Entry) (j : ℕ) → j < length es → (e : Entry) × (get_elem? es j ≡ some e)
get_elem?-some [] j h = absurd (omega (arith, h))
get_elem?-some (e ∷ es) zero h = (e, refl)
get_elem?-some (e ∷ es) (suc j) h = get_elem?-some es j (omega (arith, h))

some-some : {a b : Entry} → ◌≡◌ {A = Option Entry} (some a) (some b) → a ≡ b
some-some h = cc

module _ (es : List Entry) (capacity mask : ℕ) where
  -- An entry's slot is taken.
  pub place-taken :
      (n j : ℕ) (e : Entry) (slots : ℕ → HashSlot) (b : Built es capacity mask n slots)
      → j < n
      → get_elem? es j ≡ some e
      → (slots (b.place j)).index_plus1 ≢ 0
  place-taken n j e slots b low found z =
      let at : (slots (b.place j)).index_plus1 ≡ j + 1 = rw (b.stored j e low found) refl in
      omega (arith, at, z)

  module _ (n : ℕ) (slots : ℕ → HashSlot) (b : Built es capacity mask n slots) (e : Entry) (pos : ℕ)
      (found : get_elem? es n ≡ some e) (enough : n < length es) (free : IsFree slots pos)
      (run : Run mask slots (bit_and e.name_hash mask) pos) (low : pos < capacity) where
    abbrev slot : HashSlot
    slot = record { hash = e.name_hash; index_plus1 = n + 1 }

    abbrev place : ℕ → ℕ
    place j = if j == n then pos else b.place j

    full : slot.index_plus1 ≢ 0
    full z = omega (arith, z)

    not_pos : (j : ℕ) → j < n → b.place j ≢ pos
    not_pos j h same =
        let (d, at) = get_elem?-some es j (omega (arith, h, enough)) in
        place-taken n j d slots b h at (subst (λ q. IsFree slots q) (sym same) free)

    earlier : (j : ℕ) → j < suc n → (j == n) ≡ false → j < n
    earlier j h other = ground (arith, h, other)

    put-pos : put slots pos slot pos ≡ slot
    put-pos = let same : (pos == pos) ≡ true = ground arith in rw same refl

    put-other : (j : ℕ) → j < n → put slots pos slot (b.place j) ≡ slots (b.place j)
    put-other j h = elim (Bool-cases (b.place j == pos)) [
      | inl hit ↦ absurd (not_pos j h (ground (arith, hit)))
      | inr miss ↦ rw miss refl
    ]

    same_entry : (j : ℕ) (d : Entry) → (j == n) ≡ true → get_elem? es j ≡ some d → d ≡ e
    same_entry j d hit at =
        let same : j ≡ n = ground (arith, hit) in
        some-some (sym at ∙ subst (λ i. get_elem? es i ≡ some e) (sym same) found)

    place-stored :
        (j : ℕ) (d : Entry)
        → j < suc n
        → get_elem? es j ≡ some d
        → put slots pos slot (place j) ≡ record { hash = d.name_hash; index_plus1 = j + 1 }
    place-stored j d h at = elim (Bool-cases (j == n)) [
      | inl hit ↦
          let same : j ≡ n = ground (arith, hit) in
          let one = same_entry j d hit at in rw (hit, same, one) put-pos
      | inr other ↦ rw other (put-other j (earlier j h other) ∙ b.stored j d (earlier j h other) at)
    ]

    grown : (p q : ℕ) → Run mask slots p q → Run mask (put slots pos slot) p q
    grown p q r = Run_grows mask slots pos slot p q full r

    place-reached :
        (j : ℕ) (d : Entry)
        → j < suc n
        → get_elem? es j ≡ some d
        → Run mask (put slots pos slot) (bit_and d.name_hash mask) (place j)
    place-reached j d h at = elim (Bool-cases (j == n)) [
      | inl hit ↦
          let one = same_entry j d hit at in
          rw (hit, one) (grown (bit_and e.name_hash mask) pos run)
      | inr other ↦
          rw other
            (grown (bit_and d.name_hash mask) (b.place j) (b.reached j d (earlier j h other) at))
    ]

    -- The walk to the free slot passes the entries of the same hash.
    before_pos :
        (i : ℕ) (d : Entry)
        → i < n
        → get_elem? es i ≡ some d
        → d.name_hash ≡ e.name_hash
        → Run mask slots (b.place i) pos
    before_pos i d h at same =
        let there =
          subst (λ x. Run mask slots (bit_and x mask) (b.place i)) same (b.reached i d h at) in
        elim (Run_forks mask slots (bit_and e.name_hash mask) (b.place i) pos there run) [
          | inl on ↦ on
          | inr back ↦ absurd (not_pos i h (sym (Run_stays mask slots pos (b.place i) free back)))
        ]

    place-ordered :
        (i j : ℕ) (d f : Entry)
        → i < j
        → j < suc n
        → get_elem? es i ≡ some d
        → get_elem? es j ≡ some f
        → d.name_hash ≡ f.name_hash
        → Run mask (put slots pos slot) (place i) (place j)
    place-ordered i j d f lt h at at' same =
        let first : (i == n) ≡ false = ground (arith, lt, h) in
        elim (Bool-cases (j == n)) [
          | inl hit ↦
              let one = same_entry j f hit at' in
              let same_hash : d.name_hash ≡ e.name_hash =
                subst (λ x. d.name_hash ≡ x.name_hash) one same in
              rw (first, hit)
                (grown (b.place i) pos (before_pos i d (omega (arith, lt, h)) at same_hash))
          | inr other ↦
              rw (first, other)
                (grown (b.place i) (b.place j)
                  (b.ordered i j d f lt (earlier j h other) at at' same))
        ]

    place-only :
        (p : ℕ)
        → p < capacity
        → (put slots pos slot p).index_plus1 ≢ 0
        → (j : ℕ) × (j < suc n) × (place j ≡ p)
    place-only p h busy = elim (Bool-cases (p == pos)) [
      | inl hit ↦
          let at_n : (n == n) ≡ true = ground arith in
          (n, omega arith, rw at_n (ground (arith, hit)))
      | inr miss ↦
          let old : (slots p).index_plus1 ≢ 0 = rw miss at busy in
          let (j, before, at) = b.only p h old in
          let other : (j == n) ≡ false = ground (arith, before) in
          (j, omega (arith, before), rw other at)
    ]

    place-inside : (j : ℕ) → j < suc n → place j < capacity
    place-inside j h = elim (Bool-cases (j == n)) [
      | inl hit ↦ rw hit low
      | inr other ↦ rw other (b.inside j (earlier j h other))
    ]

    pub put-Built : Built es capacity mask (suc n) (put slots pos slot)
    put-Built = record {
      place = place;
      inside = place-inside;
      stored = place-stored;
      reached = place-reached;
      ordered = place-ordered;
      only = place-only;
      counted =
          taken-put slots pos slot capacity low free full ∙ (let c = b.counted in omega (arith, c));
    }
