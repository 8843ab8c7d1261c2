-- ===== src/Tests/Layout.antt =====
-- include/SKL/ABIX/Model/Compat.h on a layout with one field.
use abix.Prelude.{ℕ, ◌≡◌, refl, arith, List, [], ◌∷◌, ◌++◌, some, length, drop, map}
use abix.Util.Hash.{zero_hash, canonical_hash}
use abix.Model.Abi.{TypeId, TypeLayout, Field, Pointer}
use abix.Model.Compat.{
  visit_canonical_layout, put_magic, put_u16, put_u32, put_u64, put_hash, put_fields,
  put_field_list, byte_put, canonical_layout_flags, LayoutContext, encode_canonical_layout,
  canonical_layout_hash, canonical_layout_domain,
}
use abix.Model.Compat.Encoding.{cle_bytes, length-cle_bytes}
use abix.Model.Compat.Sinks.{encode-fits, encode-full, canonical_layout_hash_lem}
use abix.Model.Compat.Decode.{LayoutFits, facts, encode_canonical_layout_inj}

abbrev context : LayoutContext
context = record { arch = 2; os = 1; abi = 1; compiler = 3 }

abbrev foo_id : TypeId
foo_id = record { lo = 17; hi = 0x8000_0000_0000_0000 }

abbrev value_field : ℕ → Field
value_field name = record {
  name_offset = name;
  type_id = record { lo = 5; hi = 6 };
  offset = 8;
  flags = 0x0001_0001;
  bit_offset = 0;
  bit_width = 0;
}

abbrev foo_layout : TypeLayout
foo_layout = record {
  size = 16;
  align = 8;
  field_begin = 0;
  field_count = 1;
  layout_hash = zero_hash;
}

abbrev foo_fields : Pointer Field
foo_fields = some (λ i. value_field 3)

abbrev renamed_fields : Pointer Field
renamed_fields = some (λ i. value_field 4)

abbrev zeros : ℕ → List ℕ
zeros ℕ.zero = []
zeros (ℕ.suc n) = 0 ∷ zeros n

abbrev foo_bytes : List ℕ
foo_bytes = cle_bytes context foo_id foo_layout (value_field 3 ∷ [])

encode-fits_example :
    encode_canonical_layout context foo_id foo_layout foo_fields (zeros 80) 80
    ≡ (length foo_bytes, foo_bytes ++ drop (length foo_bytes) (zeros 80))
encode-fits_example =
    encode-fits context foo_id foo_layout foo_fields (value_field 3 ∷ []) refl (zeros 80) 80
      (omega (arith, length-cle_bytes context foo_id foo_layout (value_field 3 ∷ []))) (omega arith)

encode-full_example :
    (encode_canonical_layout context foo_id foo_layout foo_fields (zeros 77) 77).0 ≡ 0
encode-full_example =
    encode-full context foo_id foo_layout foo_fields (value_field 3 ∷ []) refl (zeros 77) 77
      (omega (arith, length-cle_bytes context foo_id foo_layout (value_field 3 ∷ [])))

canonical_layout_hash_example :
    canonical_layout_hash context foo_id foo_layout foo_fields
    ≡ canonical_hash foo_bytes canonical_layout_domain
canonical_layout_hash_example =
    canonical_layout_hash_lem context foo_id foo_layout foo_fields (value_field 3 ∷ []) refl

abbrev i32_id : TypeId
i32_id = record { lo = 32; hi = 1 }

abbrev fits : (name : ℕ) → LayoutFits context foo_id foo_layout (value_field name ∷ [])
fits name = record {
  arch_fits = omega arith;
  os_fits = omega arith;
  abi_fits = omega arith;
  compiler_fits = omega arith;
  id_fits = record { lo_fits = omega arith; hi_fits = omega arith };
  size_fits = omega arith;
  align_fits = omega arith;
  count_fits = omega arith;
  fields_fit = (
    record {
      type_id_fits = record { lo_fits = omega arith; hi_fits = omega arith };
      offset_fits = omega arith;
    },
    tt,
  );
}

same_encoding :
    encode_canonical_layout context foo_id foo_layout foo_fields (zeros 80) 80
    ≡ encode_canonical_layout context foo_id foo_layout renamed_fields (zeros 80) 80
unfolding encode_canonical_layout visit_canonical_layout put_magic put_u16 put_u32 put_u64 put_hash
    put_fields put_field_list byte_put canonical_layout_flags
same_encoding = refl

-- A renamed field is encoded alike: names are not part of the layout.
encode_canonical_layout_inj_example :
    (context ≡ context)
    × (foo_id ≡ foo_id)
    × (foo_layout.size ≡ foo_layout.size)
    × (foo_layout.align ≡ foo_layout.align)
    × (foo_layout.field_count ≡ foo_layout.field_count)
    × (map facts (value_field 3 ∷ []) ≡ map facts (value_field 4 ∷ []))
encode_canonical_layout_inj_example =
    encode_canonical_layout_inj context context foo_id foo_id foo_layout foo_layout foo_fields
      renamed_fields (value_field 3 ∷ []) (value_field 4 ∷ []) (zeros 80) 80 refl refl (fits 3)
      (fits 4) (omega (arith, length-cle_bytes context foo_id foo_layout (value_field 3 ∷ [])))
      (omega (arith, length-cle_bytes context foo_id foo_layout (value_field 4 ∷ []))) (omega arith)
      same_encoding
