-- ===== src/Runtime/Search/Find.antt =====
-- The lookups of Runtime/Search.h through an index, against the linear scans.
use abix.Prelude.{
  ℕ, zero, suc, ◌+◌, ◌-◌, ◌^◌, ◌≤◌, ◌<◌, ◌≡◌, ◌≢◌, refl, sym, subst, ◌∙◌, arith, bit_and, Bool,
  true, false, ◌&&◌, Bool-cases, ◌==◌, inl, inr, List, Option, none, some, length, get_elem?,
}
use abix.Binary.Image.{same_text}
use abix.Util.Hash.Bits.{bit_and-le}
use abix.Runtime.Search.{
  not_found, no_index, Entry, Table, HashSlot, HashIndex, table_magic, other_version, sig_result,
  scan_linear, find_linear, scan_entries, lookup_linear, scan_hash, find_hash, scan_slots,
  lookup_hash, build, find_index,
}
use abix.Runtime.Search.Probe.{after, IsFree}
use abix.Runtime.Search.Free.{spare_slot, gap, gap-lt, gap-after, after-lt, probe-Found}
use abix.Runtime.Search.Built.{Built}
use abix.Runtime.Search.Filled.{IsIndexOf, build-IsIndexOf}
use abix.Runtime.Search.First.{
  named, signed, both, scan_linear-none, scan_linear-first, scan_entries-none, scan_entries-first,
}
use abix.Runtime.Search.Walk.{AheadOf, ended, hit, miss, sight, ahead_first}

-- No entry of the name has a version that contradicts the one asked for.
abbrev pub AgreesOn : List Entry → List ℕ → ℕ → ℕ → Type 0
AgreesOn es name nh ver =
    (j : ℕ) (e : Entry)
    → get_elem? es j ≡ some e
    → named name nh e ≡ true
    → other_version ver e ≡ false

abbrev pub filled_by : Entry → ℕ → HashSlot
filled_by e i = record { hash = e.name_hash; index_plus1 = i + 1 }

module _ (es : List Entry) (mask : ℕ) (slots : ℕ → HashSlot) (name : List ℕ)
    (nh sig fuel pos : ℕ) where
  scan_hash-ended :
      (ver : ℕ)
      → IsFree slots pos
      → scan_hash es mask slots name nh sig ver (suc fuel) pos ≡ some (not_found, no_index)
  unfolding scan_hash
  scan_hash-ended ver free = rw free refl

  scan_hash-hit :
      (ver i : ℕ) (e : Entry)
      → get_elem? es i ≡ some e
      → slots pos ≡ filled_by e i
      → named name nh e ≡ true
      → other_version ver e ≡ false
      → scan_hash es mask slots name nh sig ver (suc fuel) pos ≡ some (sig_result sig e i)
  unfolding scan_hash
  scan_hash-hit ver i e at holds passes fits =
      let (same, text) = both (e.name_hash == nh) (same_text e.name name) passes in
      let full : (i + 1 == 0) ≡ false = ground arith in
      let back : i + 1 - 1 ≡ i = omega arith in
      rw (holds, full, same, back, at, text, fits, holds, back) refl

  scan_hash-miss :
      (ver i : ℕ) (e : Entry)
      → get_elem? es i ≡ some e
      → slots pos ≡ filled_by e i
      → named name nh e ≡ false
      → scan_hash es mask slots name nh sig ver (suc fuel) pos
        ≡ scan_hash es mask slots name nh sig ver fuel (after mask pos)
  unfolding scan_hash
  scan_hash-miss ver i e at holds fails =
      let full : (i + 1 == 0) ≡ false = ground arith in
      let back : i + 1 - 1 ≡ i = omega arith in
      elim (Bool-cases (e.name_hash == nh)) [
        | inl same ↦
            let other : same_text e.name name ≡ false = rw same at fails in
            rw (holds, full, same, back, at, other) refl
        | inr other ↦ rw (holds, full, other) refl
      ]

  scan_slots-ended :
      IsFree slots pos → scan_slots es mask slots name nh sig (suc fuel) pos ≡ some none
  unfolding scan_slots
  scan_slots-ended free = rw free refl

  scan_slots-hit :
      (i : ℕ) (e : Entry)
      → get_elem? es i ≡ some e
      → slots pos ≡ filled_by e i
      → signed name nh sig e ≡ true
      → scan_slots es mask slots name nh sig (suc fuel) pos ≡ some (some e)
  unfolding scan_slots
  scan_slots-hit i e at holds passes =
      let (front, text) = both (e.name_hash == nh && e.sig == sig) (same_text e.name name) passes in
      let (same, agrees) = both (e.name_hash == nh) (e.sig == sig) front in
      let full : (i + 1 == 0) ≡ false = ground arith in
      let back : i + 1 - 1 ≡ i = omega arith in rw (holds, full, same, back, at, agrees, text) refl

  scan_slots-miss :
      (i : ℕ) (e : Entry)
      → get_elem? es i ≡ some e
      → slots pos ≡ filled_by e i
      → signed name nh sig e ≡ false
      → scan_slots es mask slots name nh sig (suc fuel) pos
        ≡ scan_slots es mask slots name nh sig fuel (after mask pos)
  unfolding scan_slots
  scan_slots-miss i e at holds fails =
      let full : (i + 1 == 0) ≡ false = ground arith in
      let back : i + 1 - 1 ≡ i = omega arith in
      elim (Bool-cases (e.name_hash == nh)) [
        | inl same ↦
            let other : (e.sig == sig && same_text e.name name) ≡ false = rw same at fails in
            rw (holds, full, same, back, at, other) refl
        | inr other ↦ rw (holds, full, other) refl
      ]

module _ (es : List Entry) (capacity mask k : ℕ) (whole : mask + 1 ≡ capacity)
    (power : capacity ≡ 2 ^ k) (slots : ℕ → HashSlot) (b : Built es capacity mask (length es) slots)
    (stop : ℕ) (stop_low : stop < capacity) (free : IsFree slots stop) (name : List ℕ)
    (nh sig : ℕ) where
  named_hash : (e : Entry) → named name nh e ≡ true → e.name_hash ≡ nh
  named_hash e h =
      let (same, text) = both (e.name_hash == nh) (same_text e.name name) h in ground (arith, same)

  closer :
      (pos fuel i : ℕ) (e : Entry)
      → pos < capacity
      → slots pos ≡ filled_by e i
      → gap capacity pos stop < suc fuel
      → gap capacity (after mask pos) stop < fuel
  closer pos fuel i e low holds near =
      let index : (slots pos).index_plus1 ≡ i + 1 = rw holds refl in
      let apart : pos ≢ stop = λ same.
        let empty = subst (λ q. IsFree slots q) (sym same) free in omega (arith, index, empty) in
      let step = gap-after capacity mask k whole power pos stop low stop_low apart in
      omega (arith, step, near)

  from_zero : (e : Entry) (i : ℕ) → sig_result sig e (0 + i) ≡ sig_result sig e i
  from_zero e i = let same : 0 + i ≡ i = omega arith in rw same refl

  scan_hash-same :
      (ver : ℕ)
      → AgreesOn es name nh ver
      → (fuel pos : ℕ) → pos < capacity
      → gap capacity pos stop < fuel
      → AheadOf es capacity mask slots b (named name nh) pos
      → scan_hash es mask slots name nh sig ver fuel pos ≡ some (scan_linear name nh sig ver 0 es)
  scan_hash-same ver agrees zero pos low near ahead = absurd (omega (arith, near))
  scan_hash-same ver agrees (suc fuel) pos low near ahead =
      let f =
        probe-Found capacity mask k whole power slots (suc fuel) pos stop low stop_low free near in
      let here =
        sight es capacity mask slots b (named name nh) nh named_hash pos f.position low f.run f.free
          ahead in
      elim here [
        | ended empty nothing ↦
            rw (scan_linear-none name nh sig ver es 0 nothing)
              (scan_hash-ended es mask slots name nh sig fuel pos ver empty)
        | hit i e at holds passes first ↦
            let linear =
              scan_linear-first name nh sig ver es 0 i e at passes (agrees i e at passes) first
              ∙ from_zero e i in
            rw linear (
              scan_hash-hit es mask slots name nh sig fuel pos ver i e at holds passes
                (agrees i e at passes))
        | miss i e at holds fails further ↦
            scan_hash-miss es mask slots name nh sig fuel pos ver i e at holds fails
            ∙ scan_hash-same ver agrees fuel (after mask pos)
                (after-lt capacity mask k whole power pos low) (closer pos fuel i e low holds near)
                further
      ]

  signed_hash : (e : Entry) → signed name nh sig e ≡ true → e.name_hash ≡ nh
  signed_hash e h =
      let (front, text) = both (e.name_hash == nh && e.sig == sig) (same_text e.name name) h in
      let (same, agrees) = both (e.name_hash == nh) (e.sig == sig) front in ground (arith, same)

  scan_slots-same :
      (fuel pos : ℕ)
      → pos < capacity
      → gap capacity pos stop < fuel
      → AheadOf es capacity mask slots b (signed name nh sig) pos
      → scan_slots es mask slots name nh sig fuel pos ≡ some (scan_entries name nh sig es)
  scan_slots-same zero pos low near ahead = absurd (omega (arith, near))
  scan_slots-same (suc fuel) pos low near ahead =
      let f =
        probe-Found capacity mask k whole power slots (suc fuel) pos stop low stop_low free near in
      let here =
        sight es capacity mask slots b (signed name nh sig) nh signed_hash pos f.position low f.run
          f.free ahead in
      elim here [
        | ended empty nothing ↦
            rw (scan_entries-none name nh sig es nothing)
              (scan_slots-ended es mask slots name nh sig fuel pos empty)
        | hit i e at holds passes first ↦
            rw (scan_entries-first name nh sig es i e at passes first)
              (scan_slots-hit es mask slots name nh sig fuel pos i e at holds passes)
        | miss i e at holds fails further ↦
            scan_slots-miss es mask slots name nh sig fuel pos i e at holds fails
            ∙ scan_slots-same fuel (after mask pos) (after-lt capacity mask k whole power pos low)
                (closer pos fuel i e low holds near) further
      ]

  pub whole_scan_hash :
      (ver : ℕ)
      → AgreesOn es name nh ver
      → scan_hash es mask slots name nh sig ver capacity (bit_and nh mask)
        ≡ some (scan_linear name nh sig ver 0 es)
  whole_scan_hash ver agrees =
      let low : bit_and nh mask < capacity = omega (arith, bit_and-le nh mask, whole) in
      scan_hash-same ver agrees capacity (bit_and nh mask) low
        (gap-lt capacity mask k whole power (bit_and nh mask) stop low stop_low)
        (ahead_first es capacity mask slots b (named name nh) nh named_hash)

  pub whole_scan_slots :
      scan_slots es mask slots name nh sig capacity (bit_and nh mask)
      ≡ some (scan_entries name nh sig es)
  whole_scan_slots =
      let low : bit_and nh mask < capacity = omega (arith, bit_and-le nh mask, whole) in
      scan_slots-same capacity (bit_and nh mask) low
        (gap-lt capacity mask k whole power (bit_and nh mask) stop low stop_low)
        (ahead_first es capacity mask slots b (signed name nh sig) nh signed_hash)

-- A free slot of a built index.
spare :
    (t : Table) (index : HashIndex) (x : IsIndexOf t index)
    → (p : ℕ) × (p < index.capacity) × IsFree x.slots p
spare t index x =
    let count = x.built.counted in spare_slot x.slots index.capacity (omega (arith, count, x.roomy))

-- Through an index built for the table, where no entry of the hash and name asked for has a version that
-- contradicts the one asked for, find_hash ends within one round per slot and gives the verdict and the
-- index that find_linear gives.
pub find_hash-find_linear :
    (t : Table) (index : HashIndex) (name : List ℕ) (nh sig ver : ℕ)
    → IsIndexOf t index
    → AgreesOn t.entries name nh ver
    → find_hash t index (some name) nh sig ver ≡ some (find_linear t (some name) nh sig ver)
unfolding find_hash find_linear
find_hash-find_linear t index name nh sig ver x agrees =
    elim (Bool-cases (t.magic == table_magic)) [
      | inl right ↦
          let (stop, low, free) = spare t index x in
          let all =
            whole_scan_hash t.entries index.capacity index.mask x.exponent x.whole x.power x.slots
              x.built stop low free name nh sig ver agrees in
          rw (x.has_slots, right) all
      | inr wrong ↦ rw (x.has_slots, wrong) refl
    ]

-- Through an index built for the table, lookup_hash ends within one round per slot and gives the entry that
-- lookup_linear gives.
pub lookup_hash-lookup_linear :
    (t : Table) (index : HashIndex) (name : List ℕ) (nh sig : ℕ)
    → IsIndexOf t index
    → lookup_hash t index (some name) nh sig ≡ some (lookup_linear t (some name) nh sig)
unfolding lookup_hash lookup_linear
lookup_hash-lookup_linear t index name nh sig x = elim (Bool-cases (t.magic == table_magic)) [
  | inl right ↦
      let (stop, low, free) = spare t index x in
      let all =
        whole_scan_slots t.entries index.capacity index.mask x.exponent x.whole x.power x.slots
          x.built stop low free name nh sig in
      rw (x.has_slots, right) all
  | inr wrong ↦ rw (x.has_slots, wrong) refl
]

-- For a table of at most 2 ^ 30 entries and a name pointer, whether the array is allocated or not: `build`
-- ends with an index through which find_index, where no entry of the hash and name asked for has a version
-- that contradicts the one asked for, gives the verdict and the index that find_linear gives.
pub find_index-build :
    (allocated : Bool) (t : Table) (name : Option (List ℕ)) (nh sig ver : ℕ)
    → length t.entries ≤ 2 ^ 30
    → ((text : List ℕ) → name ≡ some text → AgreesOn t.entries text nh ver)
    → (index : HashIndex) × (build allocated t ≡ some index)
      × (find_index t index name nh sig ver ≡ some (find_linear t name nh sig ver))
unfolding build find_index find_hash find_linear
find_index-build false t name nh sig ver small agrees =
    (record { slots = none; capacity = 0; mask = 0 }, refl, refl)
find_index-build true t none nh sig ver small agrees =
    let (index, e, x) = build-IsIndexOf t small in (index, e, rw x.has_slots refl)
find_index-build true t (some name) nh sig ver small agrees =
    let (index, e, x) = build-IsIndexOf t small in
    (index, e, rw x.has_slots (find_hash-find_linear t index name nh sig ver x (agrees name refl)))
