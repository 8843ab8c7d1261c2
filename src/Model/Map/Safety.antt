-- ===== src/Model/Map/Safety.antt =====
-- A plan stays inside the two objects.
use abix.Prelude.{
  ℕ, ◌≤◌, ◌≡◌, refl, not, ◌||◌, ltb, Bool-cases, inl, inr, List, [], ◌∷◌, Option, none, some,
  length, is_some,
}
use abix.Model.Abi.{TypeLayout, Field, Pointer}
use abix.Model.Map.{
  Operation, Converter, PlanStatus, valid_layout, run_operation, run_plan, operations_of, apply,
}
use abix.Model.Map.Memory.{Stays, StaysInside}
use abix.Model.Map.Operations.{run_operation-Stays}

module _ {C : Type 0} (converter : Option (Converter C)) (source_layout target_layout : TypeLayout)
    (source_fields target_fields : Pointer Field) (source : List ℕ) (n : ℕ)
    (source_room : source_layout.size ≤ length source) (target_room : target_layout.size ≤ n)
    (inside : StaysInside converter) where
  run_plan-Stays :
      (operations : List Operation) (target : List ℕ) (context : C)
      → length target ≡ n
      → Stays n (
          run_plan converter source_layout target_layout source_fields target_fields source
            operations target context)
  unfolding run_plan
  run_plan-Stays [] target context same = same
  run_plan-Stays (operation ∷ rest) target context same =
      go
        (run_operation converter source_layout target_layout source_fields target_fields source
          operation.opcode operation target context)
        (run_operation-Stays converter source_layout target_layout source_fields target_fields
          source n source_room target_room inside operation.opcode operation target context same)
        (λ next after kept. run_plan-Stays rest next after kept)
    where
      go :
          (out : Option (PlanStatus × List ℕ × C))
          → Stays n out
          → ((next : List ℕ) (after : C)
              → length next ≡ n
              → Stays n (
                  run_plan converter source_layout target_layout source_fields target_fields source
                    rest next after))
          → Stays n (elim out as (λ x. Option (PlanStatus × List ℕ × C)) [
            | none ↦ none
            | some (PlanStatus.ok, next, after) ↦
                run_plan converter source_layout target_layout source_fields target_fields source
                  rest next after
            | some (status, next, after) ↦ some (status, next, after)
          ])
      go none stays next = stays
      go (some (PlanStatus.ok, t, c)) stays next = next t c stays
      go (some (status, t, c)) stays next = stays

-- Where the two objects are at least as large as their layouts say, and the converter writes within
-- the bytes it is given, no plan, whatever its operations, makes an access outside of an object, and
-- the target keeps its length.
pub apply-Stays :
    {C : Type 0} (capacity : ℕ) (converter : Option (Converter C)) (operations : Pointer Operation)
    (count : ℕ) (source_layout target_layout : TypeLayout)
    (source_fields target_fields : Pointer Field) (target source : List ℕ) (context : C)
    → source_layout.size ≤ length source
    → target_layout.size ≤ length target
    → StaysInside converter
    → Stays (length target) (
        apply capacity converter operations count source_layout target_layout source_fields
          target_fields target source context)
unfolding apply
apply-Stays capacity converter operations count source_layout target_layout source_fields
      target_fields target source context low high inside =
    elim (Bool-cases (not (is_some operations) || ltb capacity count)) [
      | inl bad ↦ rw bad refl
      | inr good ↦
          elim (Bool-cases (
            not (valid_layout source_layout source_fields)
            || not (valid_layout target_layout target_fields))) [
              | inl bad ↦ rw (good, bad) refl
              | inr fine ↦
                  rw (good, fine)
                    (run_plan-Stays converter source_layout target_layout source_fields
                      target_fields source (length target) low high inside
                      (operations_of operations count) target context refl)
            ]
    ]
