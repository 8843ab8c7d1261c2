-- ===== src/Tests/Hash.antt =====
-- include/SKL/ABIX/Util/Hash.h on concrete states and bytes.
use abix.Prelude.{◌≡◌, refl, arith, [], ◌∷◌, true}
use abix.Util.Hash.{CanonicalState, canonical_hash}
use abix.Util.Hash.Lanes.{canonical_hash_bytes_inj}
use abix.Model.Abi.{canonical_type_id, integer_type_id, codes}

abbrev state : CanonicalState
state = record { lo = 7; hi = 9 }

canonical_hash_bytes_inj_example : state ≡ state
canonical_hash_bytes_inj_example =
    canonical_hash_bytes_inj state state (65 ∷ 255 ∷ [])
      (record { lo_fits = omega arith; hi_fits = omega arith })
      (record { lo_fits = omega arith; hi_fits = omega arith }) (omega arith) refl

-- The identity of `prim:i32` is the digest of its seven characters.
i32_id : integer_type_id 4 true ≡ canonical_hash (codes "prim:i32") 0x5459_5045
unfolding integer_type_id canonical_type_id
i32_id = refl
