-- ===== src/Model/Map/Operations.antt =====
-- Each operation of a plan stays inside the two objects.
use abix.Prelude.{
  ℕ, ◌≤◌, ◌≡◌, subst, ◌∙◌, arith, true, ◌&&◌, ◌==◌, leb, Bool-cases, Option-cases, inl, inr, List,
  Option, some, length, length-append, length-elems, take, drop,
}
use abix.Model.Abi.{TypeLayout, Field, Pointer}
use abix.Model.Map.{
  Opcode, Operation, Converter, offset_of, valid_field, valid_range, zeros, copy, clear, skip, call,
  convert, run_operation,
}
use abix.Model.Map.Memory.{
  length-take, length-drop, load-inside, store-inside, Stays, StaysInside, valid_range-le,
  valid_field-lt,
}

module _ {C : Type 0} (converter : Option (Converter C)) (source_layout target_layout : TypeLayout)
    (source_fields target_fields : Pointer Field) (source : List ℕ) (n : ℕ)
    (source_room : source_layout.size ≤ length source) (target_room : target_layout.size ≤ n)
    (inside : StaysInside converter) where
  copy-Stays :
      (operation : Operation) (target : List ℕ) (context : C)
      → length target ≡ n
      → Stays n (
          copy converter source_layout target_layout source_fields target_fields source operation
            target context)
  unfolding copy
  copy-Stays operation target context same =
      elim (Bool-cases (
        valid_range operation.source_field_index source_layout source_fields operation.auxiliary)) [
          | inr bad ↦ rw bad same
          | inl from ↦
              elim (Bool-cases (
                valid_range operation.target_field_index target_layout target_fields
                  operation.auxiliary)) [
                    | inr bad ↦ rw (from, bad) same
                    | inl to ↦ elim (Bool-cases (operation.auxiliary == 0)) [
                      | inl empty ↦ rw (from, to, empty) same
                      | inr full ↦
                          let low =
                            valid_range-le operation.source_field_index source_layout source_fields
                              operation.auxiliary from in
                          let high =
                            valid_range-le operation.target_field_index target_layout target_fields
                              operation.auxiliary to in
                          let (bytes, loaded, size) =
                            load-inside source
                              (offset_of source_fields operation.source_field_index)
                              operation.auxiliary (omega (arith, low, source_room)) in
                          let (written, stored, kept) =
                            store-inside target
                              (offset_of target_fields operation.target_field_index) bytes
                              (omega (arith, high, target_room, same, size)) in
                          rw (from, to, full, loaded, stored) (kept ∙ same)
                    ]
                  ]
        ]

  clear-Stays :
      (operation : Operation) (target : List ℕ) (context : C)
      → length target ≡ n
      → Stays n (
          clear converter source_layout target_layout source_fields target_fields source operation
            target context)
  unfolding clear
  clear-Stays operation target context same =
      elim (Bool-cases (
        valid_range operation.target_field_index target_layout target_fields operation.auxiliary)) [
          | inr bad ↦ rw bad same
          | inl to ↦ elim (Bool-cases (operation.auxiliary == 0)) [
            | inl empty ↦ rw (to, empty) same
            | inr full ↦
                let high =
                  valid_range-le operation.target_field_index target_layout target_fields
                    operation.auxiliary to in
                let (written, stored, kept) =
                  store-inside target (offset_of target_fields operation.target_field_index)
                    (zeros operation.auxiliary)
                    (omega (
                      arith,
                      high,
                      target_room,
                      same,
                      length-elems {A = ℕ} operation.auxiliary (λ i. 0),
                    )) in
                rw (to, full, stored) (kept ∙ same)
          ]
        ]

  call-Stays :
      (run : Converter C) (from to auxiliary : ℕ) (target : List ℕ) (context : C)
      → StaysInside (some run)
      → from ≤ length source
      → to ≤ n
      → length target ≡ n
      → Stays n (
          call converter source_layout target_layout source_fields target_fields source run from to
            auxiliary target context)
  unfolding call
  call-Stays run from to auxiliary target context stays low high same =
      let left : leb from (length source) ≡ true = ground arith in
      let right : leb to (length target) ≡ true = ground (arith, same) in
      rw (left, right)
        (omega (
          arith,
          length-append (take to target)
              (run (drop from source) (drop to target) auxiliary context).1,
          stays (drop from source) (drop to target) auxiliary context,
          length-take to target (omega (arith, same, high)),
          length-drop to target,
          same,
          high,
        ))

  convert-Stays :
      (operation : Operation) (target : List ℕ) (context : C)
      → length target ≡ n
      → Stays n (
          convert converter source_layout target_layout source_fields target_fields source operation
            target context)
  unfolding convert
  convert-Stays operation target context same = elim (Option-cases converter) [
    | inl absent ↦ rw absent same
    | inr (run, given) ↦
        elim (Bool-cases (
          valid_field operation.source_field_index source_layout source_fields
          && valid_field operation.target_field_index target_layout target_fields)) [
            | inr bad ↦ rw (given, bad) same
            | inl good ↦
                let low =
                  valid_field-lt operation.source_field_index source_layout source_fields
                    (ground arith) in
                let high =
                  valid_field-lt operation.target_field_index target_layout target_fields
                    (ground arith) in
                rw (given, good)
                  (call-Stays run (offset_of source_fields operation.source_field_index)
                    (offset_of target_fields operation.target_field_index) operation.auxiliary
                    target context (subst StaysInside given inside)
                    (omega (arith, low, source_room)) (omega (arith, high, target_room)) same)
          ]
  ]

  skip-Stays :
      (operation : Operation) (target : List ℕ) (context : C)
      → length target ≡ n
      → Stays n (
          skip converter source_layout target_layout source_fields target_fields source operation
            target context)
  unfolding skip
  skip-Stays operation target context same =
      elim (Bool-cases (valid_field operation.source_field_index source_layout source_fields)) [
        | inl good ↦ rw good same
        | inr bad ↦ rw bad same
      ]

  pub run_operation-Stays :
      (opcode : Opcode) (operation : Operation) (target : List ℕ) (context : C)
      → length target ≡ n
      → Stays n (
          run_operation converter source_layout target_layout source_fields target_fields source
            opcode operation target context)
  unfolding run_operation
  run_operation-Stays Opcode.copy_field operation target context same =
      copy-Stays operation target context same
  run_operation-Stays Opcode.rename_field operation target context same =
      copy-Stays operation target context same
  run_operation-Stays Opcode.default_field operation target context same =
      clear-Stays operation target context same
  run_operation-Stays Opcode.add_default operation target context same =
      clear-Stays operation target context same
  run_operation-Stays Opcode.skip_field operation target context same =
      skip-Stays operation target context same
  run_operation-Stays Opcode.convert_int operation target context same =
      convert-Stays operation target context same
  run_operation-Stays Opcode.convert_float operation target context same =
      convert-Stays operation target context same
  run_operation-Stays Opcode.call_converter operation target context same =
      convert-Stays operation target context same
  run_operation-Stays Opcode.unknown operation target context same = same
