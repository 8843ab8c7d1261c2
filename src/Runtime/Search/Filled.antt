-- ===== src/Runtime/Search/Filled.antt =====
-- HashIndex::build of Runtime/Search.h as a whole.
use abix.Prelude.{
  ℕ, zero, suc, ◌+◌, ◌-◌, ◌*◌, ◌%◌, ◌^◌, ◌≤◌, ◌<◌, ◌≡◌, refl, subst, arith, bit_and, true, List, [],
  ◌∷◌, Option, some, length, get_elem?,
}
use abix.Runtime.Search.{Entry, Table, HashSlot, HashIndex, next_pow2, put, insert_all, build}
use native.Mathlib.Nat.{pow-le-pow_right}
use abix.Util.Hash.Bits.{bit_and-le}
use abix.Runtime.Search.Pow2.{next_pow2-IsCeiling}
use abix.Runtime.Search.Free.{taken, spare_slot, gap-lt, probe-Found}
use abix.Runtime.Search.Built.{Built, put-Built}

-- What the insertion of entries comes to.
pub record Filled (es : List Entry) (capacity mask : ℕ) (result : Option (ℕ → HashSlot))
    : Type 0 where
  pub slots : ℕ → HashSlot
  pub is_filled : result ≡ some slots
  pub built : Built es capacity mask (length es) slots

module _ (es : List Entry) (capacity mask k : ℕ) (whole : mask + 1 ≡ capacity)
    (power : capacity ≡ 2 ^ k) (roomy : length es < capacity) where
  start-lt : (h : ℕ) → bit_and h mask < capacity
  start-lt h = omega (arith, bit_and-le h mask, whole)

  insert_all-Filled :
      (rest : List Entry) (n : ℕ) (slots : ℕ → HashSlot)
      → n + length rest ≡ length es
      → ((j : ℕ) (d : Entry) → get_elem? rest j ≡ some d → get_elem? es (n + j) ≡ some d)
      → Built es capacity mask n slots
      → Filled es capacity mask (insert_all capacity mask slots n rest)
  unfolding insert_all
  insert_all-Filled [] n slots whole_length suffix b =
      let all : n ≡ length es = omega (arith, whole_length) in
      record {
        slots = slots;
        is_filled = refl;
        built = subst (λ m. Built es capacity mask m slots) all b;
      }
  insert_all-Filled (e ∷ rest) n slots whole_length suffix b =
      let count = b.counted in
      let found : get_elem? es n ≡ some e =
        let same : n + 0 ≡ n = omega arith in
        subst (λ i. get_elem? es i ≡ some e) same (suffix 0 e refl) in
      let enough : n < length es = omega (arith, whole_length) in
      let start = start-lt e.name_hash in
      let (p, low, free) = spare_slot slots capacity (omega (arith, count, enough, roomy)) in
      let f =
        probe-Found capacity mask k whole power slots capacity (bit_and e.name_hash mask) p start
          low free (gap-lt capacity mask k whole power (bit_and e.name_hash mask) p start low) in
      let next =
        put-Built es capacity mask n slots b e f.position found enough f.free f.run f.inside in
      let one_more : suc n ≡ n + 1 = omega arith in
      rw (insert_all, f.is_found)
        (insert_all-Filled rest (n + 1)
          (put slots f.position (record { hash = e.name_hash; index_plus1 = n + 1 }))
          (omega (arith, whole_length))
          (λ j d at.
            let same : n + suc j ≡ n + 1 + j = omega arith in
            subst (λ i. get_elem? es i ≡ some d) same (suffix (suc j) d at))
          (subst
            (λ m.
              Built es capacity mask m
                (put slots f.position (record { hash = e.name_hash; index_plus1 = n + 1 })))
            one_more next))

  unfoldable empty : ℕ → HashSlot
  empty pos = record { hash = 0; index_plus1 = 0 }

  taken-empty : (m : ℕ) → taken empty m ≡ 0
  unfolding taken empty
  taken-empty zero = refl
  taken-empty (suc m) = taken-empty m

  empty-Built : Built es capacity mask 0 (λ pos. record { hash = 0; index_plus1 = 0 })
  unfolding empty
  empty-Built = record {
    place = λ j. j;
    inside = λ j h. absurd (omega (arith, h));
    stored = λ j e h at. absurd (omega (arith, h));
    reached = λ j e h at. absurd (omega (arith, h));
    ordered = λ i j d e lt h at at' same. absurd (omega (arith, h));
    only = λ p h full. absurd (full refl);
    counted = taken-empty capacity;
  }

  pub all-Filled :
      Filled es capacity mask
        (insert_all capacity mask (λ pos. record { hash = 0; index_plus1 = 0 }) 0 es)
  all-Filled =
      insert_all-Filled es 0 (λ pos. record { hash = 0; index_plus1 = 0 }) (omega arith)
        (λ j d at.
          let same : j ≡ 0 + j = omega arith in subst (λ i. get_elem? es i ≡ some d) same at)
        empty-Built

-- An index with an array that holds every entry of the table.
pub record IsIndexOf (t : Table) (index : HashIndex) : Type 0 where
  pub slots : ℕ → HashSlot
  pub has_slots : index.slots ≡ some slots
  pub exponent : ℕ
  pub whole : index.mask + 1 ≡ index.capacity
  pub power : index.capacity ≡ 2 ^ exponent
  pub roomy : length t.entries < index.capacity
  pub built : Built t.entries index.capacity index.mask (length t.entries) slots

-- The slots that `build` asks for.
abbrev wanted : Table → ℕ
wanted t = next_pow2 (length t.entries * 2 % 2 ^ 32)

abbrev cut : ℕ → ℕ
cut capacity = (capacity + (2 ^ 32 - 1)) % 2 ^ 32

build_once_filled :
    (t : Table) (slots : ℕ → HashSlot)
    → insert_all
        (wanted t)
        (cut (wanted t))
        (λ pos. record { hash = 0; index_plus1 = 0 })
        0
        t.entries
      ≡ some slots
    → build true t
      ≡ some (record { slots = some slots; capacity = wanted t; mask = cut (wanted t) })
unfolding build
build_once_filled t slots f = rw (build, f) refl

-- For a table of at most 2 ^ 30 entries, where the array is allocated: every probe of `build` ends at a free
-- slot, and the index it leaves has a power of two of slots, more than there are entries, its mask is one
-- less, and each entry stands in one slot on the walk from its hash's position, the entries of one hash in
-- their order.
pub build-IsIndexOf :
    (t : Table)
    → length t.entries ≤ 2 ^ 30
    → (index : HashIndex) × (build true t ≡ some index) × IsIndexOf t index
build-IsIndexOf t h =
    let n = length t.entries in
    let fits : n * 2 % 2 ^ 32 ≡ n * 2 = omega (arith, h) in
    let ceiling = next_pow2-IsCeiling (n * 2 % 2 ^ 32) (omega (arith, h)) in
    let capacity = wanted t in
    let mask = cut capacity in
    let power : capacity ≡ 2 ^ ceiling.exponent = ceiling.is_power in
    let positive : 0 < capacity = omega (
      arith,
      power,
      pow-le-pow_right {n = 2} (omega arith) {i = 0} {j = ceiling.exponent} (omega arith),
    ) in
    let bounded : capacity ≤ 2 ^ 31 =
      omega (arith, power, pow-le-pow_right {n = 2} (omega arith) ceiling.small) in
    let whole : mask + 1 ≡ capacity = omega (arith, positive, bounded) in
    let roomy : n < capacity = omega (arith, positive, fits, ceiling.above) in
    let f = all-Filled t.entries capacity mask ceiling.exponent whole power roomy in
    (
      record { slots = some f.slots; capacity = capacity; mask = mask },
      build_once_filled t f.slots f.is_filled,
      record {
        slots = f.slots;
        has_slots = refl;
        exponent = ceiling.exponent;
        whole = whole;
        power = power;
        roomy = roomy;
        built = f.built;
      },
    )
