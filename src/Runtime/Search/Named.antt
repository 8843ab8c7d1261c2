-- ===== src/Runtime/Search/Named.antt =====
-- The overloads of the lookups that hash the name first, with the name's hash (Runtime/Type.h) over the
-- hash function cstr64 and the start value FNV1A_OFFSET_BASE of the MICS library, which are parameters.
use abix.Prelude.{ℕ, ◌/◌, ◌%◌, ◌^◌, ◌≤◌, ◌≡◌, refl, bit_xor, Bool, List, Option, none, some, length}
use abix.Runtime.Search.{
  LookupResult, bad_table, no_index, Table, HashIndex, build, find_linear, find_hash, find_index,
}
use abix.Runtime.Search.Find.{AgreesOn, find_index-build}

-- On 32 bits.
unfoldable pub name_hash : (List ℕ → ℕ) → ℕ → Option (List ℕ) → ℕ
name_hash cstr64 offset_base none = bit_xor offset_base (offset_base / 2 ^ 32) % 2 ^ 32
name_hash cstr64 offset_base (some s) = let h = cstr64 s in bit_xor h (h / 2 ^ 32) % 2 ^ 32

unfoldable pub find_linear_named :
    (List ℕ → ℕ) → ℕ → Table → Option (List ℕ) → ℕ → ℕ → LookupResult × ℕ
find_linear_named cstr64 offset_base t none sig ver = (bad_table, no_index)
find_linear_named cstr64 offset_base t (some name) sig ver =
    find_linear t (some name) (name_hash cstr64 offset_base (some name)) sig ver

unfoldable pub find_hash_named :
    (List ℕ → ℕ) → ℕ → Table → HashIndex → Option (List ℕ) → ℕ → ℕ → Option (LookupResult × ℕ)
find_hash_named cstr64 offset_base t index none sig ver = some (bad_table, no_index)
find_hash_named cstr64 offset_base t index (some name) sig ver =
    find_hash t index (some name) (name_hash cstr64 offset_base (some name)) sig ver

unfoldable pub find_index_named :
    (List ℕ → ℕ) → ℕ → Table → HashIndex → Option (List ℕ) → ℕ → ℕ → Option (LookupResult × ℕ)
find_index_named cstr64 offset_base t index none sig ver = some (bad_table, no_index)
find_index_named cstr64 offset_base t index (some name) sig ver =
    find_index t index (some name) (name_hash cstr64 offset_base (some name)) sig ver

-- For a table of at most 2 ^ 30 entries and a name pointer, whether the array is allocated or not: `build`
-- ends with an index through which the overload of find_index that hashes the name, where no entry of that
-- hash and name has a version that contradicts the one asked for, gives what that of find_linear gives.
pub find_index_named-build :
    (cstr64 : List ℕ → ℕ) (offset_base : ℕ) (allocated : Bool) (t : Table) (name : Option (List ℕ))
    (sig ver : ℕ)
    → length t.entries ≤ 2 ^ 30
    → ((text : List ℕ)
        → name ≡ some text
        → AgreesOn t.entries text (name_hash cstr64 offset_base name) ver)
    → (index : HashIndex) × (build allocated t ≡ some index)
      × (find_index_named cstr64 offset_base t index name sig ver
          ≡ some (find_linear_named cstr64 offset_base t name sig ver))
unfolding find_index_named find_linear_named
find_index_named-build cstr64 offset_base allocated t none sig ver small agrees =
    let (index, e, same) = find_index-build allocated t none 0 sig ver small (λ text bad. cc) in
    (index, e, refl)
find_index_named-build cstr64 offset_base allocated t (some name) sig ver small agrees =
    find_index-build allocated t (some name) (name_hash cstr64 offset_base (some name)) sig ver
      small agrees
