-- ===== src/Runtime/Registry.antt =====
-- include/SKL/ABIX/Runtime/Registry.h: the versioned registry of the types of loaded modules, over
-- the canonical registry. The first `_count` elements of `_entries` are the list `entries`.
pub mod Check
pub mod Invariant
pub mod Round
pub mod Load
pub mod Lookup
use abix.Prelude.{
  ℕ, suc, ◌+◌, ◌-◌, ◌*◌, ◌%◌, ◌^◌, bit_and, Bool, true, false, not, ◌&&◌, ◌||◌, ◌==◌, leb, ltb,
  if◌then◌else◌, List, [], ◌∷◌, ◌++◌, Option, none, some, length, get_elem?, any, all, find, newest,
  is_some,
}
use abix.Util.Hash.{Hash128, eq_hash}
use abix.Model.Abi.{TypeId, TypeDesc, TypeLayout, CString}
use abix.Metadata.Descriptor.{
  FieldDescriptor, TypeDescriptor, ParameterDescriptor, FunctionDescriptor, ModuleDescriptor, Row,
  read, rows, valid,
}
use abix.Metadata.Registry as Canonical

pub data RegisterStatus : Type 0 where
  ok : RegisterStatus
  invalid_module : RegisterStatus
  duplicate_type : RegisterStatus
  capacity_exceeded : RegisterStatus
  unknown_type_reference : RegisterStatus
  layout_conflict : RegisterStatus

pub record RegistryEntry : Type 0 where
  pub descriptor : TypeDescriptor
  pub canonical : TypeDesc
  pub layout : TypeLayout
  pub version : ℕ

pub record Registry : Type 0 where
  pub entries : List RegistryEntry
  pub canonical : Canonical.Registry

abbrev pub has_version : TypeId → ℕ → RegistryEntry → Bool
has_version id version e = eq_hash e.descriptor.type_id id && e.version == version

abbrev pub has_id : TypeId → RegistryEntry → Bool
has_id id e = eq_hash e.descriptor.type_id id

unfoldable pub find_type : Registry → TypeId → ℕ → Option RegistryEntry
find_type r id version = find (has_version id version) r.entries

-- The newest version of an id, the later entry where two are equally new.
unfoldable pub find_by_id : Registry → TypeId → Option RegistryEntry
find_by_id r id = newest (has_id id) (λ e. e.version) r.entries

-- The loop over the leading digits, on 32 bits.
unfoldable pub parse_digits : ℕ → List ℕ → ℕ
parse_digits value [] = value
parse_digits value (p ∷ ps) =
    let rest = parse_digits ((value * 10 + (p - b'0')) % 2 ^ 32) ps in
    if leb b'0' p && leb p b'9' then rest else value

unfoldable pub parse_version : CString → ℕ
unfolding parse_digits
parse_version none = 0
parse_version (some text) = parse_digits 0 text

abbrev pub module_version : ModuleDescriptor → ℕ
module_version m = parse_version m.version

abbrev pub size : Registry → ℕ
size r = length r.entries

unfoldable pub at : Registry → ℕ → Option RegistryEntry
at r index = get_elem? r.entries index

unfoldable pub valid_layout : TypeDescriptor → Bool
valid_layout type = Canonical.power_of_two type.align && not (type.align == 0)

unfoldable pub known_type : Registry → ModuleDescriptor → TypeId → Bool
known_type r m id = any (λ row. eq_hash row.type.type_id id) (rows m) || is_some (find_by_id r id)

-- The first loop of `check_module`: stopped by an error, or the number of new types.
pub data Checked : Type 0 where
  stop : RegisterStatus → Checked
  pass : ℕ → Checked

-- `seen` are the rows before, which `duplicate_in_module` compares with.
unfoldable pub check_types : Registry → ℕ → List Row → ℕ → List Row → Checked
check_types r version seen new_types [] = pass new_types
check_types r version seen new_types (row ∷ rest) =
    let known = check_types r version (seen ++ row ∷ []) new_types rest in
    let fresh = check_types r version (seen ++ row ∷ []) (new_types + 1) rest in
    if any (λ other. eq_hash other.type.type_id row.type.type_id) seen
    then stop duplicate_type
    else if not (valid_layout row.type)
    then stop invalid_module
    else elim (find_type r row.type.type_id version) [
      | none ↦ fresh
      | some existing ↦
          if Canonical.same_layout (some existing.layout) (some row.layout)
          then known
          else stop layout_conflict
    ]

unfoldable pub known_fields : Registry → ModuleDescriptor → List Row → Bool
known_fields r m =
    all (λ row. all (λ f. known_type r m f.type_id) (read row.type.fields row.type.field_count))

unfoldable pub known_functions : Registry → ModuleDescriptor → List FunctionDescriptor → Bool
known_functions r m = all (λ f.
    known_type r m f.return_type
    && all (λ p. known_type r m p.type_id) (read f.parameters f.parameter_count))

-- A status other than `ok` returns at once.
abbrev continue :
    RegisterStatus × Registry → (Registry → RegisterStatus × Registry) → RegisterStatus × Registry
continue (ok, r) k = k r
continue (status, r) k = (status, r)

module _ (capacity : ℕ) where
  -- What follows the first loop; `Capacity - _count` is a difference of two `size_t`.
  unfoldable pub check_references : Registry → ModuleDescriptor → Checked → RegisterStatus
  check_references r m (stop status) = status
  check_references r m (pass new_types) =
      if ltb ((capacity + 2 ^ 64 - size r) % 2 ^ 64) new_types
      then capacity_exceeded
      else if not (known_fields r m (rows m))
      then unknown_type_reference
      else if not (known_functions r m (read m.functions m.function_count))
      then unknown_type_reference
      else ok

  unfoldable pub check_module : Registry → ModuleDescriptor → ℕ → RegisterStatus
  unfolding check_references
  check_module r m version =
      if not (valid m)
      then invalid_module
      else check_references r m (check_types r version [] 0 (rows m))

  -- The entry of a row, unless the array is full.
  unfoldable pub push : Registry → Row → ℕ → RegisterStatus × Registry
  push r row version = if size r == capacity then (capacity_exceeded, r) else (
    ok,
    record r {
      entries =
          r.entries
          ++ record {
            descriptor = row.type;
            canonical = row.canonical;
            layout = row.layout;
            version = version;
          }
            ∷ [];
    },
  )

  -- After the canonical registration: two statuses end the loop, one goes on to the next row.
  unfoldable pub after_canonical :
      Registry → Row → ℕ → Canonical.RegisterStatus × Canonical.Registry → RegisterStatus × Registry
  unfolding push
  after_canonical r row version (Canonical.RegisterStatus.ok, c) =
      push (record r { canonical = c }) row version
  after_canonical r row version (Canonical.RegisterStatus.already_registered, c) =
      (ok, record r { canonical = c })
  after_canonical r row version (Canonical.RegisterStatus.layout_conflict, c) =
      (layout_conflict, record r { canonical = c })
  after_canonical r row version (_, c) = (invalid_module, record r { canonical = c })

  -- One round of the loop of `register_module`.
  unfoldable pub register_row : Registry → Row → ℕ → RegisterStatus × Registry
  unfolding after_canonical
  register_row r row version =
      if is_some (find_type r row.type.type_id version)
      then (ok, r)
      else if is_some (Canonical.find_by_id r.canonical row.type.type_id)
      then push r row version
      else after_canonical r row version
          (Canonical.register_type capacity r.canonical (some row.canonical) (some row.layout) 0)

  unfoldable pub register_rows : Registry → List Row → ℕ → RegisterStatus × Registry
  unfolding register_row
  register_rows r [] version = (ok, r)
  register_rows r (row ∷ rest) version =
      continue (register_row r row version) (λ q. register_rows q rest version)

  unfoldable pub register_module : Registry → ModuleDescriptor → ℕ → RegisterStatus × Registry
  unfolding check_module register_rows
  register_module r m version = elim (check_module r m version) [
    | ok ↦ register_rows r (rows m) version
    | status ↦ (status, r)
  ]

unfoldable pub valid_entry : Canonical.Registry → RegistryEntry → RegisterStatus
valid_entry c e =
    if not (is_some (Canonical.find_by_id c e.descriptor.type_id))
    then invalid_module
    else if not (eq_hash e.canonical.id e.descriptor.type_id)
    then invalid_module
    else if not (eq_hash e.descriptor.layout_hash e.layout.layout_hash)
        || not (e.descriptor.size == e.layout.size)
        || not (e.descriptor.align == e.layout.align)
    then layout_conflict
    else ok

unfoldable pub validate_entries : Canonical.Registry → List RegistryEntry → RegisterStatus
unfolding valid_entry
validate_entries c [] = ok
validate_entries c (e ∷ es) = elim (valid_entry c e) [
  | ok ↦ validate_entries c es
  | status ↦ status
]

unfoldable pub validate : Registry → RegisterStatus
unfolding validate_entries
validate r = validate_entries r.canonical r.entries
