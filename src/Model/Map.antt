-- ===== src/Model/Map.antt =====
-- include/SKL/ABIX/Model/Map.h: the plans that convert an object of one layout into another. An object
-- is the list of its bytes, and an access outside of it, which the language leaves undefined, is
-- `none`. The converter is a function of the caller: it takes the bytes from its two pointers on, the
-- auxiliary value and its context, and gives its result with the target's bytes and the context.
pub mod Memory
pub mod Operations
pub mod Safety
use abix.Prelude.{
  ℕ, ◌+◌, ◌-◌, Bool, true, false, not, ◌&&◌, ◌||◌, ◌==◌, leb, ltb, if◌then◌else◌, List, [], ◌∷◌,
  ◌++◌, Option, none, some, length, take, drop, elems, is_some,
}
use abix.Model.Abi.{TypeLayout, Field, Pointer}
use abix.Metadata.Registry.{power_of_two}
use abix.Metadata.Descriptor.{missing}

-- A byte that is none of the eight is `unknown`.
pub data Opcode : Type 0 where
  copy_field convert_int convert_float default_field rename_field skip_field add_default : Opcode
  call_converter unknown : Opcode

pub record Operation : Type 0 where
  pub opcode : Opcode
  pub source_field_index : ℕ
  pub target_field_index : ℕ
  pub auxiliary : ℕ

abbrev pub Converter : Type 0 → Type 0
Converter C = List ℕ → List ℕ → ℕ → C → Bool × List ℕ × C

pub data PlanStatus : Type 0 where
  ok invalid_plan invalid_layout invalid_operation conversion_failed : PlanStatus

unfoldable pub valid_layout : TypeLayout → Pointer Field → Bool
valid_layout layout fields =
    not (layout.size == 0)
    && not (layout.align == 0)
    && power_of_two layout.align
    && not (missing layout.field_count fields)

-- `fields[index].offset`
abbrev pub offset_of : Pointer Field → ℕ → ℕ
offset_of none index = 0
offset_of (some fields) index = (fields index).offset

unfoldable pub valid_field : ℕ → TypeLayout → Pointer Field → Bool
valid_field index layout fields =
    is_some fields && ltb index layout.field_count && ltb (offset_of fields index) layout.size

unfoldable pub valid_range : ℕ → TypeLayout → Pointer Field → ℕ → Bool
valid_range index layout fields bytes =
    valid_field index layout fields
    && leb bytes layout.size
    && leb (offset_of fields index) (layout.size - bytes)

abbrev pub zeros : ℕ → List ℕ
zeros n = elems n (λ i. 0)

-- `memcpy` and `memset` read and write whole ranges.
unfoldable pub load : List ℕ → ℕ → ℕ → Option (List ℕ)
load source offset n =
    if leb (offset + n) (length source) then some (take n (drop offset source)) else none

unfoldable pub store : List ℕ → ℕ → List ℕ → Option (List ℕ)
store target offset bytes =
    if leb (offset + length bytes) (length target)
    then some (take offset target ++ (bytes ++ drop (offset + length bytes) target))
    else none

infixl 5 ◌>>=◌
abbrev pub ◌>>=◌ : {A B : Type 0} → Option A → (A → Option B) → Option B
none >>= k = none
some a >>= k = k a

module _ {C : Type 0} (converter : Option (Converter C)) (source_layout target_layout : TypeLayout)
    (source_fields target_fields : Pointer Field) (source : List ℕ) where
  abbrev pub Outcome : Type 0
  Outcome = Option (PlanStatus × List ℕ × C)

  -- The status is `ok` where the loop goes on.
  unfoldable pub copy : Operation → List ℕ → C → Outcome
  copy operation target context =
      if not
          (valid_range operation.source_field_index source_layout source_fields operation.auxiliary)
        || not (
            valid_range operation.target_field_index target_layout target_fields
              operation.auxiliary)
        || operation.auxiliary == 0
      then some (invalid_operation, target, context)
      else do
        bytes ←
            load source (offset_of source_fields operation.source_field_index) operation.auxiliary
        written ← store target (offset_of target_fields operation.target_field_index) bytes
        some (ok, written, context)

  unfoldable pub clear : Operation → List ℕ → C → Outcome
  clear operation target context =
      if not
          (valid_range operation.target_field_index target_layout target_fields operation.auxiliary)
        || operation.auxiliary == 0
      then some (invalid_operation, target, context)
      else do
        written ←
            store target (offset_of target_fields operation.target_field_index)
              (zeros operation.auxiliary)
        some (ok, written, context)

  unfoldable pub skip : Operation → List ℕ → C → Outcome
  skip operation target context =
      if valid_field operation.source_field_index source_layout source_fields
      then some (ok, target, context)
      else some (invalid_operation, target, context)

  -- The call of the converter, on the bytes from the two fields on.
  unfoldable pub call : Converter C → ℕ → ℕ → ℕ → List ℕ → C → Outcome
  call run from to auxiliary target context =
      if leb from (length source) && leb to (length target)
      then (let (done, tail, after) = run (drop from source) (drop to target) auxiliary context in
          some (if done then ok else conversion_failed, take to target ++ tail, after))
      else none

  unfoldable pub convert : Operation → List ℕ → C → Outcome
  unfolding call
  convert operation target context = elim converter [
    | none ↦ some (invalid_operation, target, context)
    | some run ↦
        if valid_field operation.source_field_index source_layout source_fields
          && valid_field operation.target_field_index target_layout target_fields
        then call run (offset_of source_fields operation.source_field_index)
            (offset_of target_fields operation.target_field_index) operation.auxiliary target
            context
        else some (conversion_failed, target, context)
  ]

  unfoldable pub run_operation : Opcode → Operation → List ℕ → C → Outcome
  run_operation copy_field operation target context = copy operation target context
  run_operation rename_field operation target context = copy operation target context
  run_operation default_field operation target context = clear operation target context
  run_operation add_default operation target context = clear operation target context
  run_operation skip_field operation target context = skip operation target context
  run_operation convert_int operation target context = convert operation target context
  run_operation convert_float operation target context = convert operation target context
  run_operation call_converter operation target context = convert operation target context
  run_operation unknown operation target context = some (invalid_operation, target, context)

  -- The loop; a status other than `ok` is returned at once.
  unfoldable pub run_plan : List Operation → List ℕ → C → Outcome
  run_plan [] target context = some (ok, target, context)
  run_plan (operation ∷ rest) target context =
      elim (run_operation operation.opcode operation target context) [
        | none ↦ none
        | some (ok, next, after) ↦ run_plan rest next after
        | some (status, next, after) ↦ some (status, next, after)
      ]

-- The operations that the loop reads.
abbrev pub operations_of : Pointer Operation → ℕ → List Operation
operations_of none count = []
operations_of (some operations) count = elems count operations

-- The tests of `apply` and its loop, for objects that are not null; a null object is refused as a
-- plan without operations is.
unfoldable pub apply :
    {C : Type 0}
    → ℕ
    → Option (Converter C)
    → Pointer Operation
    → ℕ
    → TypeLayout
    → TypeLayout
    → Pointer Field
    → Pointer Field
    → List ℕ
    → List ℕ
    → C
    → Option (PlanStatus × List ℕ × C)
apply capacity converter operations count source_layout target_layout source_fields target_fields
      target source context =
    if not (is_some operations) || ltb capacity count
    then some (invalid_plan, target, context)
    else if not (valid_layout source_layout source_fields)
        || not (valid_layout target_layout target_fields)
    then some (invalid_layout, target, context)
    else run_plan converter source_layout target_layout source_fields target_fields source
        (operations_of operations count) target context
