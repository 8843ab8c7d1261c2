-- ===== src/Tests/Search.antt =====
-- Runs of the lookup by name, and the instances of its theorems.
use abix.Prelude.{
  ℕ, ◌*◌, ◌^◌, ◌%◌, bit_xor, ◌≡◌, refl, arith, true, List, [], ◌∷◌, Option, none, some,
}
use abix.Binary.Image.{same_text}
use abix.Runtime.Search.{
  LookupResult, ok, Entry, Table, HashIndex, make_table, next_pow2, build, find_linear, insert_all,
  probe, scan_hash, find_hash, find_index, lookup_hash, lookup_linear,
}
use abix.Runtime.Search.Pow2.{IsCeiling, next_pow2-IsCeiling}
use abix.Runtime.Search.Filled.{IsIndexOf, build-IsIndexOf}
use abix.Runtime.Search.Named.{find_linear_named, find_index_named, find_index_named-build}
use abix.Runtime.Search.Find.{AgreesOn, find_index-build, lookup_hash-lookup_linear}

abbrev entry : ℕ → ℕ → ℕ → Entry
entry letter sig hash = record {
  name = letter ∷ [];
  sig = sig;
  version = 1;
  fnptr = letter;
  name_hash = hash;
  flags = 0;
}

-- Two of them fall on one slot, and two have one name.
abbrev functions : Table
functions = make_table (entry 97 5 11 ∷ entry 98 6 19 ∷ entry 97 7 11 ∷ [])

abbrev found : Option HashIndex → Option (LookupResult × ℕ)
found none = none
found (some index) = find_index functions index (some (98 ∷ [])) 19 6 0

run_build : found (build true functions) ≡ some (ok, 1)
unfolding build next_pow2 insert_all probe find_index find_hash scan_hash same_text
run_build = refl

agrees : (name : List ℕ) (nh : ℕ) → AgreesOn functions.entries name nh 0
agrees name nh j e at good = refl

abbrev hash_of : List ℕ → ℕ
hash_of [] = 14_695_981_039_346_656_037
hash_of (x ∷ xs) = bit_xor (hash_of xs) x * 1_099_511_628_211 % 2 ^ 64

next_pow2-IsCeiling_example : IsCeiling 6 (next_pow2 6)
next_pow2-IsCeiling_example = next_pow2-IsCeiling 6 (omega arith)

build-IsIndexOf_example :
    (index : HashIndex) × (build true functions ≡ some index) × IsIndexOf functions index
build-IsIndexOf_example = build-IsIndexOf functions (omega arith)

find_index-build_example :
    (index : HashIndex) × (build true functions ≡ some index)
    × (find_index functions index (some (97 ∷ [])) 11 7 0
        ≡ some (find_linear functions (some (97 ∷ [])) 11 7 0))
find_index-build_example =
    find_index-build true functions (some (97 ∷ [])) 11 7 0 (omega arith) (λ text e. agrees text _)

find_index_named-build_example :
    (index : HashIndex) × (build true functions ≡ some index)
    × (find_index_named hash_of 5 functions index (some (97 ∷ [])) 7 0
        ≡ some (find_linear_named hash_of 5 functions (some (97 ∷ [])) 7 0))
find_index_named-build_example =
    find_index_named-build hash_of 5 true functions (some (97 ∷ [])) 7 0 (omega arith)
      (λ text e. agrees text _)

abbrev eight : HashIndex
eight = (build-IsIndexOf functions (omega arith)).0

lookup_hash-lookup_linear_example :
    lookup_hash functions eight (some (97 ∷ [])) 11 7
    ≡ some (lookup_linear functions (some (97 ∷ [])) 11 7)
lookup_hash-lookup_linear_example =
    lookup_hash-lookup_linear functions eight (97 ∷ []) 11 7
      (build-IsIndexOf functions (omega arith)).2
