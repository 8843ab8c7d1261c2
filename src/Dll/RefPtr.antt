-- ===== src/Dll/RefPtr.antt =====
-- include/SKL/ABIX/DLL/RefPtr.h and ViewPtr.h: one control block and the pointers to it, in one thread. A
-- pointer is `strong` for a RefPtr and `weak` for a ViewPtr; one whose `_cb` is null is not listed. The
-- object's destructor touches no pointer of this block.
pub mod Counts
pub mod Pointers
use abix.Prelude.{
  ℕ, zero, suc, ◌+◌, ◌-◌, ◌%◌, ◌^◌, ◌≡◌, ◌≢◌, Bool, true, false, not, ◌&&◌, ◌==◌, ltb,
  if◌then◌else◌, List, [], ◌∷◌, ◌++◌,
}

-- RefControlBlock, with how often the object was destroyed, given away, or dropped by the last reference
-- without a deleter, and how often the block was deallocated.
pub record RefControlBlock : Type 0 where
  pub refs : ℕ
  pub views : ℕ
  -- `ptr` is not null
  pub owned : Bool
  -- `destroy` is not null
  pub deleter : Bool
  pub destroyed : ℕ
  pub given : ℕ
  pub dropped : ℕ
  pub deallocated : ℕ

pub data Handle : Type 0 where
  strong weak : Handle

-- RefPtr(p, d), with p not null and memory for the block, given whether d is not null.
unfoldable pub make : Bool → RefControlBlock
make deleter = record {
  refs = 1;
  views = 0;
  owned = true;
  deleter = deleter;
  destroyed = 0;
  given = 0;
  dropped = 0;
  deallocated = 0;
}

unfoldable pub copy_ref : RefControlBlock → RefControlBlock
copy_ref b = record b { refs = (b.refs + 1) % 2 ^ 32 }

-- `if (destroy) destroy(ptr)`, and `ptr = nullptr`.
unfoldable pub destroy_object : RefControlBlock → RefControlBlock
destroy_object b = record b {
  destroyed = if b.deleter then b.destroyed + 1 else b.destroyed;
  dropped = if not b.deleter && b.owned then b.dropped + 1 else b.dropped;
  owned = false;
}

unfoldable pub dealloc : RefControlBlock → RefControlBlock
dealloc b = record b { deallocated = b.deallocated + 1 }

-- RefPtr::reset
unfoldable pub reset : RefControlBlock → RefControlBlock
reset b =
    let less = record b { refs = (b.refs + (2 ^ 32 - 1)) % 2 ^ 32 } in
    let ended = destroy_object less in
    if not (less.refs == 0) then less else if ended.views == 0 then dealloc ended else ended

-- RefPtr::release, where it is the only reference
unfoldable pub give_away : RefControlBlock → RefControlBlock
give_away b = reset (record b { owned = false; deleter = false; given = b.given + 1 })

unfoldable pub copy_view : RefControlBlock → RefControlBlock
copy_view b = record b { views = (b.views + 1) % 2 ^ 32 }

-- ViewPtr::release
unfoldable pub release_view : RefControlBlock → RefControlBlock
release_view b =
    let less = record b { views = (b.views + (2 ^ 32 - 1)) % 2 ^ 32 } in
    if less.views == 0 && less.refs == 0 then dealloc less else less

unfoldable pub alive : RefControlBlock → Bool
alive b = ltb 0 b.refs

-- What a program does with the pointers. A move keeps the list; an assignment is a drop and a copy.
pub data Step : RefControlBlock × List Handle → RefControlBlock × List Handle → Type 0 where
  copy :
      (b : RefControlBlock) (before after : List Handle)
      → Step (b, before ++ strong ∷ after) (copy_ref b, before ++ strong ∷ strong ∷ after)
  drop :
      (b : RefControlBlock) (before after : List Handle)
      → Step (b, before ++ strong ∷ after) (reset b, before ++ after)
  give :
      (b : RefControlBlock) (before after : List Handle)
      → b.refs ≡ 1
      → Step (b, before ++ strong ∷ after) (give_away b, before ++ after)
  view :
      (b : RefControlBlock) (before after : List Handle)
      → Step (b, before ++ strong ∷ after) (copy_view b, before ++ strong ∷ weak ∷ after)
  duplicate :
      (b : RefControlBlock) (before after : List Handle)
      → Step (b, before ++ weak ∷ after) (copy_view b, before ++ weak ∷ weak ∷ after)
  forget :
      (b : RefControlBlock) (before after : List Handle)
      → Step (b, before ++ weak ∷ after) (release_view b, before ++ after)
  lock :
      (b : RefControlBlock) (before after : List Handle)
      → alive b ≡ true
      → Step (b, before ++ weak ∷ after) (copy_ref b, before ++ weak ∷ strong ∷ after)

-- Steps through states with fewer than 2 ^ 32 pointers.
abbrev pub pointers : List Handle → ℕ
pointers [] = 0
pointers (h ∷ hs) = suc (pointers hs)

pub data Steps : RefControlBlock × List Handle → RefControlBlock × List Handle → Type 0 where
  stay : (s : RefControlBlock × List Handle) → Steps s s
  next :
      (s t u : RefControlBlock × List Handle)
      → Step s t
      → ltb (pointers t.1) (2 ^ 32) ≡ true
      → Steps t u
      → Steps s u
