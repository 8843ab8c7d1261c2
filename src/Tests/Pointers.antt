-- ===== src/Tests/Pointers.antt =====
-- include/SKL/ABIX/DLL/RefPtr.h and ViewPtr.h: a view outlives the last reference.
use abix.Prelude.{◌≡◌, refl, true, false, [], ◌∷◌}
use abix.Dll.RefPtr.{
  RefControlBlock, strong, weak, make, copy_view, reset, destroy_object, dealloc, release_view,
  drop, view, forget, Steps, stay, next,
}
use abix.Dll.RefPtr.Pointers.{CountedIn, pointers-Counted}

abbrev viewed : RefControlBlock
viewed = copy_view (make true)

abbrev expired : RefControlBlock
expired = reset viewed

abbrev over : RefControlBlock
over = release_view expired

expired_block : expired ≡ record {
  refs = 0;
  views = 1;
  owned = false;
  deleter = true;
  destroyed = 1;
  given = 0;
  dropped = 0;
  deallocated = 0;
}
unfolding reset copy_view make destroy_object dealloc
expired_block = refl

over_block : over ≡ record {
  refs = 0;
  views = 0;
  owned = false;
  deleter = true;
  destroyed = 1;
  given = 0;
  dropped = 0;
  deallocated = 1;
}
unfolding release_view reset copy_view make destroy_object dealloc
over_block = refl

run_over : Steps (make true, strong ∷ []) (over, [])
run_over = next _ _ _ (view (make true) [] []) refl (
    next _ _ _ (drop viewed [] (weak ∷ [])) refl
      (next _ _ _ (forget expired [] []) refl (stay (over, []))))

pointers_example : CountedIn true (over, [])
pointers_example = pointers-Counted true (over, []) run_over
