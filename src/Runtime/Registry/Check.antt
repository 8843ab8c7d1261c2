-- ===== src/Runtime/Registry/Check.antt =====
-- What `check_module` has established when it passes.
use mathlib.Core.List.{Memᴰ}
use mathlib.Core.List.Memᴰ
use abix.Prelude.{
  ℕ, ◌+◌, ◌-◌, ◌%◌, ◌^◌, ◌≤◌, ◌≡◌, ◌≢◌, refl, ap, arith, Bool, true, false, if◌then◌else◌,
  Bool-cases, Option-cases, inl, inr, List, [], ◌∷◌, ◌++◌, some, length, any, all, All, is_some,
}
use abix.Util.Hash.{eq_hash}
use abix.Metadata.Descriptor.{ModuleDescriptor, Row, rows, valid, valid_row}
use abix.Metadata.Registry as Canonical
use abix.Runtime.Registry.{
  ok, RegistryEntry, Registry, find_type, Checked, stop, pass, check_types, check_references,
  check_module, valid_layout, size,
}

abbrev pub entry_of : Row → ℕ → RegistryEntry
entry_of row version = record {
  descriptor = row.type;
  canonical = row.canonical;
  layout = row.layout;
  version = version;
}

-- The entries that a module adds: those of its rows that the registry does not have yet.
unfoldable pub new_entries : Registry → ℕ → List Row → List RegistryEntry
new_entries r version [] = []
new_entries r version (row ∷ rest) =
    let others = new_entries r version rest in
    if is_some (find_type r row.type.type_id version) then others else entry_of row version ∷ others

abbrev pub Differs : Row → Row → Type 0
Differs row other = eq_hash row.type.type_id other.type.type_id ≡ false

abbrev pub DistinctRows : List Row → Type 0
DistinctRows [] = Unit
DistinctRows (row ∷ rest) = All (Differs row) rest × DistinctRows rest

-- What the first loop has found out about each row.
abbrev pub Passes : Registry → ℕ → Row → Type 0
Passes r version row =
    (valid_layout row.type ≡ true)
    × ((e : RegistryEntry)
        → find_type r row.type.type_id version ≡ some e
        → Canonical.same_layout (some e.layout) (some row.layout) ≡ true)

abbrev same_id : Row → Row → Bool
same_id row other = eq_hash other.type.type_id row.type.type_id

abbrev Checks : Registry → ℕ → List Row → List Row → Type 0
Checks r version seen [] = Unit
Checks r version seen (row ∷ rest) =
    (any (same_id row) seen ≡ false)
    × Passes r version row
    × Checks r version (seen ++ row ∷ []) rest

check_types-Checks :
    (r : Registry) (version : ℕ) (seen : List Row) (n : ℕ) (l : List Row) (k : ℕ)
    → check_types r version seen n l ≡ pass k
    → (k ≡ n + length (new_entries r version l)) × Checks r version seen l
unfolding check_types new_entries
check_types-Checks r version seen n [] k h = let e : n ≡ k = cc in (omega arith, tt)
check_types-Checks r version seen n (row ∷ rest) k h = elim (Bool-cases (any (same_id row) seen)) [
  | inl twice ↦ absurd (ground arith)
  | inr once ↦ elim (Bool-cases (valid_layout row.type)) [
    | inr bad ↦ absurd (ground arith)
    | inl good ↦ elim (Option-cases (find_type r row.type.type_id version)) [
      | inl absent ↦
          let ih = check_types-Checks r version (seen ++ row ∷ []) (n + 1) rest k (ground arith) in
          (ground arith, (once, (good, λ e f. absurd (ground arith)), ih.1))
      | inr (e, found) ↦
          elim (Bool-cases (Canonical.same_layout (some e.layout) (some row.layout))) [
            | inr other ↦ absurd (ground arith)
            | inl same ↦
                let ih = check_types-Checks r version (seen ++ row ∷ []) n rest k (ground arith) in
                (ground arith, (once, (good, λ d f. let eq : d ≡ e = cc in rw eq same), ih.1))
          ]
    ]
  ]
]

any-false :
    (p : Row → Bool) (seen : List Row) (o : Row) → any p seen ≡ false → Memᴰ o seen → p o ≡ false
any-false p (x ∷ seen) o h (Memᴰ.head e) = rw e (ground arith)
any-false p (x ∷ seen) o h (Memᴰ.tail i) = any-false p seen o (ground arith) i
any-false p [] o h i = elim i [ ]

Checks-Differs :
    (r : Registry) (version : ℕ) (seen l : List Row) (row : Row)
    → Memᴰ row seen
    → Checks r version seen l
    → All (Differs row) l
Checks-Differs r version seen [] row i c = tt
Checks-Differs r version seen (x ∷ l) row i (once, _, c) = (
  any-false (same_id x) seen row once i,
  Checks-Differs r version (seen ++ x ∷ []) l row (Memᴰ.append_left (x ∷ []) i) c,
)

Checks-distinct :
    (r : Registry) (version : ℕ) (seen l : List Row)
    → Checks r version seen l
    → DistinctRows l × All (Passes r version) l
Checks-distinct r version seen [] c = (tt, tt)
Checks-distinct r version seen (x ∷ l) (once, passes, c) =
    let ih = Checks-distinct r version (seen ++ x ∷ []) l c in
    (
      (
        Checks-Differs r version (seen ++ x ∷ []) l x (Memᴰ.append_right seen (Memᴰ.head refl)) c,
        ih.0,
      ),
      (passes, ih.1),
    )

all-All : (p : Row → Bool) (l : List Row) → all p l ≡ true → All (λ row. p row ≡ true) l
all-All p [] h = tt
all-All p (x ∷ l) h = (ground arith, all-All p l (ground arith))

-- What a passed check has established of a module's rows: each is valid by itself, no two have one
-- id, each is new or agrees with the entry of its version, and the new ones fit.
pub record IsChecked (capacity : ℕ) (r : Registry) (version : ℕ) (l : List Row) : Type 0 where
  pub valid_rows : All (λ row. valid_row row ≡ true) l
  pub distinct : DistinctRows l
  pub passed : All (Passes r version) l
  pub fits : length (new_entries r version l) ≤ (capacity + 2 ^ 64 - size r) % 2 ^ 64

check_types-ne-ok :
    (r : Registry) (version : ℕ) (seen : List Row) (n : ℕ) (l : List Row)
    → check_types r version seen n l ≢ stop ok
unfolding check_types
check_types-ne-ok r version seen n [] = ground arith
check_types-ne-ok r version seen n (row ∷ rest) = ground (
  arith,
  check_types-ne-ok r version (seen ++ row ∷ []) n rest,
  check_types-ne-ok r version (seen ++ row ∷ []) (n + 1) rest,
)

references-pass :
    (capacity : ℕ) (r : Registry) (m : ModuleDescriptor) (c : Checked)
    → c ≢ stop ok
    → check_references capacity r m c ≡ ok
    → (k : ℕ) × (c ≡ pass k) × (k ≤ (capacity + 2 ^ 64 - size r) % 2 ^ 64)
unfolding check_references
references-pass capacity r m (pass k) n h = (k, refl, ground arith)
references-pass capacity r m (stop s) n h = absurd (n (ap stop h))

pub check_module-IsChecked :
    (capacity : ℕ) (r : Registry) (m : ModuleDescriptor) (version : ℕ)
    → check_module capacity r m version ≡ ok
    → IsChecked capacity r version (rows m)
unfolding check_module valid
check_module-IsChecked capacity r m version h =
    let good : valid m ≡ true = ground arith in
    let (k, passed, fits) =
      references-pass capacity r m (check_types r version [] 0 (rows m))
        (check_types-ne-ok r version [] 0 (rows m)) (ground arith) in
    let (count, checks) = check_types-Checks r version [] 0 (rows m) k passed in
    let (distinct, passes) = Checks-distinct r version [] (rows m) checks in
    record {
      valid_rows = all-All valid_row (rows m) (ground arith);
      distinct = distinct;
      passed = passes;
      fits = omega arith;
    }
