-- ===== src/Dll/RefPtr/Pointers.antt =====
-- Every step keeps the counts.
use abix.Prelude.{
  ℕ, zero, suc, ◌+◌, ◌^◌, ◌<◌, ◌≡◌, refl, sym, subst, arith, Bool, true, ltb, List, [], ◌∷◌, ◌++◌,
}
use abix.Dll.RefPtr.{
  RefControlBlock, Handle, strong, weak, make, copy_ref, reset, give_away, copy_view, release_view,
  alive, pointers, Step, copy, drop, give, view, duplicate, forget, lock, Steps, stay, next,
}
use abix.Dll.RefPtr.Counts.{
  strongs, weaks, Counted, strongs-append, weaks-append, pointers-sum, copy_ref-Counted,
  copy_view-Counted, reset-Counted, give_away-Counted, release_view-Counted,
}

-- The counts of the block are those of the pointers.
abbrev pub CountedIn : Bool → RefControlBlock × List Handle → Type 0
CountedIn d s = Counted d s.0 (strongs s.1) (weaks s.1)

-- A state by what its counts are.
counts_from :
    {d : Bool} (b : RefControlBlock) (hs : List Handle) (r v : ℕ)
    → strongs hs ≡ r
    → weaks hs ≡ v
    → Counted d b r v
    → CountedIn d (b, hs)
counts_from {d = d} b hs r v e f c =
    subst (λ k. Counted d b k (weaks hs)) (sym e) (subst (λ k. Counted d b r k) (sym f) c)

counts_of :
    {d : Bool} (b : RefControlBlock) (hs : List Handle) (r v : ℕ)
    → strongs hs ≡ r
    → weaks hs ≡ v
    → CountedIn d (b, hs)
    → Counted d b r v
counts_of {d = d} b hs r v e f c =
    subst (λ k. Counted d b k v) e (subst (λ k. Counted d b (strongs hs) k) f c)

-- The pointers around the ones that a step is about.
abbrev around_refs : List Handle → List Handle → ℕ
around_refs before after = strongs before + strongs after

abbrev around_views : List Handle → List Handle → ℕ
around_views before after = weaks before + weaks after

few_enough :
    (hs : List Handle) (r v : ℕ)
    → ltb (pointers hs) (2 ^ 32) ≡ true
    → strongs hs ≡ r
    → weaks hs ≡ v
    → r + v < 2 ^ 32
few_enough hs r v few e f =
    let small : pointers hs < 2 ^ 32 = ground (arith, few) in
    omega (arith, small, pointers-sum hs, e, f)

dead : (n : ℕ) → n ≡ 0 → ltb 0 n ≡ true → ⊥
dead n e h = ground (arith, e, h)

locked :
    {d : Bool} (b : RefControlBlock) (r v : ℕ)
    → alive b ≡ true
    → suc r + v < 2 ^ 32
    → Counted d b r v
    → Counted d (copy_ref b) (suc r) v
unfolding alive
locked b zero v living few c = absurd (dead b.refs c.refs living)
locked b (suc r) v living few c = copy_ref-Counted b r v few c

Step-Counted :
    {d : Bool} (s t : RefControlBlock × List Handle)
    → Step s t
    → ltb (pointers t.1) (2 ^ 32) ≡ true
    → CountedIn d s
    → CountedIn d t
Step-Counted {d = d} _ _ (copy b before after) few c =
    let r = around_refs before after in
    let v = around_views before after in
    let e : strongs (before ++ strong ∷ strong ∷ after) ≡ suc (suc r) =
      omega (arith, strongs-append before (strong ∷ strong ∷ after)) in
    let f : weaks (before ++ strong ∷ strong ∷ after) ≡ v =
      weaks-append before (strong ∷ strong ∷ after) in
    let held =
      counts_of b (before ++ strong ∷ after) (suc r) v
        (omega (arith, strongs-append before (strong ∷ after)))
        (weaks-append before (strong ∷ after)) c in
    counts_from (copy_ref b) (before ++ strong ∷ strong ∷ after) (suc (suc r)) v e f (
      copy_ref-Counted b r v
        (few_enough (before ++ strong ∷ strong ∷ after) (suc (suc r)) v few e f) held)
Step-Counted {d = d} _ _ (drop b before after) few c =
    let r = around_refs before after in
    let v = around_views before after in
    let held =
      counts_of b (before ++ strong ∷ after) (suc r) v
        (omega (arith, strongs-append before (strong ∷ after)))
        (weaks-append before (strong ∷ after)) c in
    counts_from (reset b) (before ++ after) r v (strongs-append before after)
      (weaks-append before after) (reset-Counted b r v held)
Step-Counted {d = d} _ _ (give b before after one) few c =
    let v = around_views before after in
    let held =
      counts_of b (before ++ strong ∷ after) (suc (around_refs before after)) v
        (omega (arith, strongs-append before (strong ∷ after)))
        (weaks-append before (strong ∷ after)) c in
    let alone : around_refs before after ≡ 0 = omega (arith, one, held.refs) in
    counts_from (give_away b) (before ++ after) 0 v
      (omega (arith, strongs-append before after, alone)) (weaks-append before after)
      (give_away-Counted b v (subst (λ k. Counted d b (suc k) v) alone held))
Step-Counted {d = d} _ _ (view b before after) few c =
    let r = around_refs before after in
    let v = around_views before after in
    let e : strongs (before ++ strong ∷ weak ∷ after) ≡ suc r =
      omega (arith, strongs-append before (strong ∷ weak ∷ after)) in
    let f : weaks (before ++ strong ∷ weak ∷ after) ≡ suc v =
      omega (arith, weaks-append before (strong ∷ weak ∷ after)) in
    let held =
      counts_of b (before ++ strong ∷ after) (suc r) v
        (omega (arith, strongs-append before (strong ∷ after)))
        (weaks-append before (strong ∷ after)) c in
    counts_from (copy_view b) (before ++ strong ∷ weak ∷ after) (suc r) (suc v) e f (
      copy_view-Counted b (suc r) v
        (few_enough (before ++ strong ∷ weak ∷ after) (suc r) (suc v) few e f) (omega arith) held)
Step-Counted {d = d} _ _ (duplicate b before after) few c =
    let r = around_refs before after in
    let v = around_views before after in
    let e : strongs (before ++ weak ∷ weak ∷ after) ≡ r =
      strongs-append before (weak ∷ weak ∷ after) in
    let f : weaks (before ++ weak ∷ weak ∷ after) ≡ suc (suc v) =
      omega (arith, weaks-append before (weak ∷ weak ∷ after)) in
    let held =
      counts_of b (before ++ weak ∷ after) r (suc v) (strongs-append before (weak ∷ after))
        (omega (arith, weaks-append before (weak ∷ after))) c in
    counts_from (copy_view b) (before ++ weak ∷ weak ∷ after) r (suc (suc v)) e f (
      copy_view-Counted b r (suc v)
        (few_enough (before ++ weak ∷ weak ∷ after) r (suc (suc v)) few e f) (omega arith) held)
Step-Counted {d = d} _ _ (forget b before after) few c =
    let r = around_refs before after in
    let v = around_views before after in
    let held =
      counts_of b (before ++ weak ∷ after) r (suc v) (strongs-append before (weak ∷ after))
        (omega (arith, weaks-append before (weak ∷ after))) c in
    counts_from (release_view b) (before ++ after) r v (strongs-append before after)
      (weaks-append before after) (release_view-Counted b r v held)
Step-Counted {d = d} _ _ (lock b before after living) few c =
    let r = around_refs before after in
    let v = around_views before after in
    let e : strongs (before ++ weak ∷ strong ∷ after) ≡ suc r =
      omega (arith, strongs-append before (weak ∷ strong ∷ after)) in
    let f : weaks (before ++ weak ∷ strong ∷ after) ≡ suc v =
      omega (arith, weaks-append before (weak ∷ strong ∷ after)) in
    let held =
      counts_of b (before ++ weak ∷ after) r (suc v) (strongs-append before (weak ∷ after))
        (omega (arith, weaks-append before (weak ∷ after))) c in
    counts_from (copy_ref b) (before ++ weak ∷ strong ∷ after) (suc r) (suc v) e f (
      locked b r (suc v) living
        (few_enough (before ++ weak ∷ strong ∷ after) (suc r) (suc v) few e f) held)

Steps-Counted :
    {d : Bool} (s t : RefControlBlock × List Handle) → Steps s t → CountedIn d s → CountedIn d t
Steps-Counted _ _ (stay s) c = c
Steps-Counted _ _ (next s t u one few more) c = Steps-Counted t u more (Step-Counted s t one few c)

-- Whatever a program does with the pointers to a new block, made with a deleter or without, while there are
-- fewer than 2 ^ 32 of them: the counts are the numbers of RefPtr and of ViewPtr; the object is alive while a
-- RefPtr is left, and otherwise exactly one of these happened, once: it was destroyed, which needs a deleter,
-- given away, or dropped undestroyed, which happens only without a deleter; the block was deallocated once if
-- no pointer is left and is still allocated otherwise.
pub pointers-Counted :
    (deleter : Bool) (s : RefControlBlock × List Handle)
    → Steps (make deleter, strong ∷ []) s
    → CountedIn deleter s
unfolding make
pointers-Counted deleter s run =
    Steps-Counted (make deleter, strong ∷ []) s run
      (record {
        refs = refl;
        views = refl;
        few = omega arith;
        object = refl;
        no_destroy = λ e. refl;
        no_drop = λ e. refl;
        same_deleter = λ e. refl;
        kept = refl;
        block = refl;
      })
