-- ===== src/Tests/Plan.antt =====
-- include/SKL/ABIX/Model/Map.h: a plan that copies one field.
use abix.Prelude.{ℕ, ◌≡◌, refl, arith, true, [], ◌∷◌, Option, some}
use abix.Util.Hash.{zero_hash}
use abix.Model.Abi.{TypeLayout, Field, Pointer}
use abix.Model.Map.{
  Operation, Opcode, Converter, PlanStatus, apply, valid_layout, valid_field, valid_range, load,
  store, copy, run_operation, run_plan,
}
use abix.Model.Map.Memory.{Stays}
use abix.Model.Map.Safety.{apply-Stays}

abbrev word : TypeLayout
word = record { size = 2; align = 2; field_begin = 0; field_count = 1; layout_hash = zero_hash }

abbrev at_start : Pointer Field
at_start = some (λ i. record {
  name_offset = 0;
  type_id = zero_hash;
  offset = 0;
  flags = 0;
  bit_offset = 0;
  bit_width = 0;
})

abbrev copying : Pointer Operation
copying = some (λ i. record {
  opcode = Opcode.copy_field;
  source_field_index = 0;
  target_field_index = 0;
  auxiliary = 2;
})

-- A converter that writes nothing.
abbrev idle : Option (Converter ℕ)
idle = some (λ s t auxiliary context. (true, t, context))

copies :
    apply 64 idle copying 1 word word at_start at_start (1 ∷ 2 ∷ 3 ∷ []) (7 ∷ 8 ∷ []) 0
    ≡ some (PlanStatus.ok, 7 ∷ 8 ∷ 3 ∷ [], 0)
unfolding apply valid_layout valid_field valid_range load store copy run_operation run_plan
copies = refl

apply-Stays_example :
    Stays 3 (apply 64 idle copying 1 word word at_start at_start (1 ∷ 2 ∷ 3 ∷ []) (7 ∷ 8 ∷ []) 0)
apply-Stays_example =
    apply-Stays 64 idle copying 1 word word at_start at_start (1 ∷ 2 ∷ 3 ∷ []) (7 ∷ 8 ∷ []) 0
      (omega arith) (omega arith) (λ s t auxiliary context. refl)
