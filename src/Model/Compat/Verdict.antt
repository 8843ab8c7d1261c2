-- ===== src/Model/Compat/Verdict.antt =====
-- `compare` against the relations that its results name.
use abix.Prelude.{◌≡◌, ◌≢◌, ◌↔◌, arith, Bool, true, false}
use abix.Util.Hash.{Hash128}
use abix.Model.Abi.{TypeId, TypeLayout}
use abix.Model.Compat.{
  identical, layout_compatible, map_compatible, incompatible, same_hash, compare,
}

pub same_hash_iff : (g h : Hash128) → (same_hash g h ≡ true) ↔ (g ≡ h)
same_hash_iff g h = ground arith

-- Each result says exactly what it names: `identical` an equal type and layout hash,
-- `layout_compatible` an equal layout hash under another type, and the last two a different layout
-- hash, told apart by the map alone.
pub compare_iff :
    (s t : TypeId) (l m : TypeLayout) (has_map : Bool)
    → ((compare s l t m has_map ≡ identical) ↔ ((s ≡ t) × (l.layout_hash ≡ m.layout_hash)))
      × ((compare s l t m has_map ≡ layout_compatible)
          ↔ ((s ≢ t) × (l.layout_hash ≡ m.layout_hash)))
      × ((compare s l t m has_map ≡ map_compatible)
          ↔ ((l.layout_hash ≢ m.layout_hash) × (has_map ≡ true)))
      × ((compare s l t m has_map ≡ incompatible)
          ↔ ((l.layout_hash ≢ m.layout_hash) × (has_map ≡ false)))
unfolding compare
compare_iff s t l m has_map =
    ground (arith, same_hash_iff s t, same_hash_iff l.layout_hash m.layout_hash)

-- The verdict of `compare` does not depend on which side is the source.
pub compare_symm :
    (s t : TypeId) (l m : TypeLayout) (has_map : Bool)
    → compare s l t m has_map ≡ compare t m s l has_map
unfolding compare
compare_symm s t l m has_map = ground arith
