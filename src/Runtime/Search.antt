-- ===== src/Runtime/Search.antt =====
-- include/SKL/ABIX/Runtime/Search.h: the lookup of a function by its name, in a table (Runtime/Type.h) and in
-- a hash index over it. A table's `count` is the length of its entries, and a C string is the list of its
-- bytes, none where the pointer is null. The index's array is a function of the position, and a loop that
-- did not end in as many rounds as the array has slots is none.
pub mod Bits
pub mod Smear
pub mod Pow2
pub mod Probe
pub mod Free
pub mod Built
pub mod Filled
pub mod First
pub mod Walk
pub mod Find
pub mod Named
use abix.Prelude.{
  ℕ, zero, suc, ◌+◌, ◌-◌, ◌*◌, ◌/◌, ◌%◌, ◌^◌, bit_or, bit_and, Bool, true, false, not, ◌&&◌, ◌||◌,
  ◌==◌, leb, ltb, if◌then◌else◌, List, [], ◌∷◌, Option, none, some, is_some, length, get_elem?,
}
use abix.Binary.Image.{same_text}

pub data LookupResult : Type 0 where
  ok not_found sig_mismatch version_mismatch bad_table : LookupResult

pub record Entry : Type 0 where
  pub name : List ℕ
  pub sig : ℕ
  pub version : ℕ
  pub fnptr : ℕ
  pub name_hash : ℕ
  pub flags : ℕ

pub record Table : Type 0 where
  pub magic : ℕ
  pub format_version : ℕ
  pub reserved : ℕ
  pub entries : List Entry

abbrev pub table_magic : ℕ
table_magic = 0xAB1E_7A81

abbrev pub make_table : List Entry → Table
make_table arr = record { magic = table_magic; format_version = 1; reserved = 0; entries = arr }

-- ~index_t{0}
abbrev pub no_index : ℕ
no_index = 2 ^ 32 - 1

pub record HashSlot : Type 0 where
  pub hash : ℕ
  pub index_plus1 : ℕ

-- On 32 bits.
unfoldable pub next_pow2 : ℕ → ℕ
next_pow2 v =
    let v0 = v - 1 in
    let v1 = bit_or v0 (v0 / 2) in
    let v2 = bit_or v1 (v1 / 4) in
    let v4 = bit_or v2 (v2 / 16) in
    let v8 = bit_or v4 (v4 / 256) in
    let v16 = bit_or v8 (v8 / 65_536) in if v == 0 then 1 else (v16 + 1) % 2 ^ 32

unfoldable pub in_slot_pool_window : ℕ → Bool
in_slot_pool_window capacity = leb 4_096 capacity && leb capacity (2 ^ 20)

-- A buffer is its address; 0 is null.
pub record SlotPool : Type 0 where
  pub slots : ℕ
  pub capacity : ℕ

-- The buffer, and the pool without it.
unfoldable pub take : SlotPool → ℕ → ℕ × SlotPool
take pool want =
    if not (pool.slots == 0) && pool.capacity == want
    then (pool.slots, record { slots = 0; capacity = 0 })
    else (0, pool)

-- The buffer that is deleted, and the pool.
unfoldable pub offer : SlotPool → ℕ → ℕ → ℕ × SlotPool
offer pool buffer capacity =
    if not (buffer == 0)
      && in_slot_pool_window capacity
      && (pool.slots == 0 || not (pool.capacity == capacity))
    then (pool.slots, record { slots = buffer; capacity = capacity })
    else (buffer, pool)

-- The array, where it is not null.
pub record HashIndex : Type 0 where
  pub slots : Option (ℕ → HashSlot)
  pub capacity : ℕ
  pub mask : ℕ

abbrev pub put : (ℕ → HashSlot) → ℕ → HashSlot → ℕ → HashSlot
put f k v j = if j == k then v else f j

-- The first free position from `pos` on.
unfoldable pub probe : ℕ → (ℕ → HashSlot) → ℕ → ℕ → Option ℕ
probe mask slots zero pos = none
probe mask slots (suc fuel) pos =
    let further = probe mask slots fuel (bit_and (pos + 1) mask) in
    if (slots pos).index_plus1 == 0 then some pos else further

-- The loop of `build` from the entry `i` on.
unfoldable pub insert_all : ℕ → ℕ → (ℕ → HashSlot) → ℕ → List Entry → Option (ℕ → HashSlot)
insert_all capacity mask slots i [] = some slots
insert_all capacity mask slots i (e ∷ es) =
    elim (probe mask slots capacity (bit_and e.name_hash mask)) [
      | none ↦ none
      | some pos ↦
          insert_all capacity mask
            (put slots pos (record { hash = e.name_hash; index_plus1 = i + 1 })) (i + 1) es
    ]

-- `build`, after the release of the old array. The array comes from the pool or from the allocator, where
-- it is allocated, and is zeroed.
unfoldable pub build : Bool → Table → Option HashIndex
build false t = some (record { slots = none; capacity = 0; mask = 0 })
build true t =
    let capacity = next_pow2 (length t.entries * 2 % 2 ^ 32) in
    let mask = (capacity + (2 ^ 32 - 1)) % 2 ^ 32 in
    elim (insert_all capacity mask (λ pos. record { hash = 0; index_plus1 = 0 }) 0 t.entries) [
      | none ↦ none
      | some slots ↦ some (record { slots = some slots; capacity = capacity; mask = mask })
    ]

abbrev pub valid : HashIndex → Bool
valid index = is_some index.slots

-- `ver != 0 && e.version != 0 && e.version != ver`
abbrev pub other_version : ℕ → Entry → Bool
other_version ver e = not (ver == 0) && not (e.version == 0) && not (e.version == ver)

abbrev pub sig_result : ℕ → Entry → ℕ → LookupResult × ℕ
sig_result sig e i = if e.sig == sig then (ok, i) else (sig_mismatch, i)

unfoldable pub scan_linear : List ℕ → ℕ → ℕ → ℕ → ℕ → List Entry → LookupResult × ℕ
scan_linear name nh sig ver i [] = (not_found, no_index)
scan_linear name nh sig ver i (e ∷ es) =
    let rest = scan_linear name nh sig ver (i + 1) es in
    if not (e.name_hash == nh)
    then rest
    else if not (same_text e.name name)
    then rest
    else if other_version ver e
    then rest
    else sig_result sig e i

unfoldable pub find_linear : Table → Option (List ℕ) → ℕ → ℕ → ℕ → LookupResult × ℕ
find_linear t none nh sig ver = (bad_table, no_index)
find_linear t (some name) nh sig ver =
    if not (t.magic == table_magic)
    then (bad_table, no_index)
    else scan_linear name nh sig ver 0 t.entries

unfoldable pub scan_entries : List ℕ → ℕ → ℕ → List Entry → Option Entry
scan_entries name nh sig [] = none
scan_entries name nh sig (e ∷ es) =
    let rest = scan_entries name nh sig es in
    if not (e.name_hash == nh)
    then rest
    else if not (e.sig == sig)
    then rest
    else if same_text e.name name
    then some e
    else rest

unfoldable pub lookup_linear : Table → Option (List ℕ) → ℕ → ℕ → Option Entry
lookup_linear t none nh sig = none
lookup_linear t (some name) nh sig =
    if not (t.magic == table_magic) then none else scan_entries name nh sig t.entries

-- The rounds of find_hash from a position on. An index past the entries would be a read out of bounds.
unfoldable pub scan_hash :
    List Entry → ℕ → (ℕ → HashSlot) → List ℕ → ℕ → ℕ → ℕ → ℕ → ℕ → Option (LookupResult × ℕ)
scan_hash es mask slots name nh sig ver zero pos = none
scan_hash es mask slots name nh sig ver (suc fuel) pos =
    let further = scan_hash es mask slots name nh sig ver fuel (bit_and (pos + 1) mask) in
    let i = (slots pos).index_plus1 - 1 in
    if (slots pos).index_plus1 == 0
    then some (not_found, no_index)
    else if not ((slots pos).hash == nh)
    then further
    else elim (get_elem? es i) [
      | none ↦ none
      | some e ↦
          if not (same_text e.name name)
          then further
          else if other_version ver e
          then some (version_mismatch, i)
          else some (sig_result sig e i)
    ]

unfoldable pub find_hash :
    Table → HashIndex → Option (List ℕ) → ℕ → ℕ → ℕ → Option (LookupResult × ℕ)
find_hash t index none nh sig ver = some (bad_table, no_index)
find_hash t index (some name) nh sig ver = elim index.slots [
  | none ↦ some (bad_table, no_index)
  | some slots ↦
      if not (t.magic == table_magic)
      then some (bad_table, no_index)
      else scan_hash t.entries index.mask slots name nh sig ver index.capacity
          (bit_and nh index.mask)
]

unfoldable pub scan_slots :
    List Entry → ℕ → (ℕ → HashSlot) → List ℕ → ℕ → ℕ → ℕ → ℕ → Option (Option Entry)
scan_slots es mask slots name nh sig zero pos = none
scan_slots es mask slots name nh sig (suc fuel) pos =
    let further = scan_slots es mask slots name nh sig fuel (bit_and (pos + 1) mask) in
    if (slots pos).index_plus1 == 0
    then some none
    else if not ((slots pos).hash == nh)
    then further
    else elim (get_elem? es ((slots pos).index_plus1 - 1)) [
      | none ↦ none
      | some e ↦ if e.sig == sig && same_text e.name name then some (some e) else further
    ]

unfoldable pub lookup_hash : Table → HashIndex → Option (List ℕ) → ℕ → ℕ → Option (Option Entry)
lookup_hash t index none nh sig = some none
lookup_hash t index (some name) nh sig = elim index.slots [
  | none ↦ some none
  | some slots ↦
      if not (t.magic == table_magic)
      then some none
      else scan_slots t.entries index.mask slots name nh sig index.capacity (bit_and nh index.mask)
]

unfoldable pub find_index :
    Table → HashIndex → Option (List ℕ) → ℕ → ℕ → ℕ → Option (LookupResult × ℕ)
find_index t index name nh sig ver =
    if valid index then find_hash t index name nh sig ver else some (find_linear t name nh sig ver)
