-- ===== src/Dll/RefPtr/Counts.antt =====
-- The counts against the pointers, and what they guarantee.
use abix.Prelude.{
  ℕ, zero, suc, ◌+◌, ◌-◌, ◌%◌, ◌^◌, ◌<◌, ◌≡◌, refl, arith, Bool, true, false, ◌==◌, if◌then◌else◌,
  Bool-cases, inl, inr, List, [], ◌∷◌, ◌++◌,
}
use abix.Dll.RefPtr.{
  RefControlBlock, Handle, strong, weak, copy_ref, destroy_object, dealloc, reset, give_away,
  copy_view, release_view, pointers,
}

abbrev pub strongs : List Handle → ℕ
strongs [] = 0
strongs (strong ∷ hs) = suc (strongs hs)
strongs (weak ∷ hs) = strongs hs

abbrev pub weaks : List Handle → ℕ
weaks [] = 0
weaks (strong ∷ hs) = weaks hs
weaks (weak ∷ hs) = suc (weaks hs)

pub strongs-append : (xs ys : List Handle) → strongs (xs ++ ys) ≡ strongs xs + strongs ys
strongs-append [] ys = omega arith
strongs-append (strong ∷ xs) ys = omega (arith, strongs-append xs ys)
strongs-append (weak ∷ xs) ys = strongs-append xs ys

pub weaks-append : (xs ys : List Handle) → weaks (xs ++ ys) ≡ weaks xs + weaks ys
weaks-append [] ys = omega arith
weaks-append (strong ∷ xs) ys = weaks-append xs ys
weaks-append (weak ∷ xs) ys = omega (arith, weaks-append xs ys)

pub pointers-sum : (hs : List Handle) → pointers hs ≡ strongs hs + weaks hs
pointers-sum [] = omega arith
pointers-sum (strong ∷ hs) = omega (arith, pointers-sum hs)
pointers-sum (weak ∷ hs) = omega (arith, pointers-sum hs)

-- 1 if the number is 0, and 0 otherwise.
abbrev pub gone : ℕ → ℕ
gone zero = 1
gone (suc n) = 0

abbrev pub owned_count : Bool → ℕ
owned_count true = 1
owned_count false = 0

-- `d` is whether the block was made with a deleter.
pub record Counted (d : Bool) (b : RefControlBlock) (r v : ℕ) : Type 0 where
  pub refs : b.refs ≡ r
  pub views : b.views ≡ v
  pub few : r + v < 2 ^ 32
  pub object : b.destroyed + b.given + b.dropped ≡ gone r
  pub no_destroy : d ≡ false → b.destroyed ≡ 0
  pub no_drop : d ≡ true → b.dropped ≡ 0
  pub same_deleter : gone r ≡ 0 → b.deleter ≡ d
  pub kept : owned_count b.owned + gone r ≡ 1
  pub block : b.deallocated ≡ gone (r + v)

gone_pos : (n : ℕ) → 0 < n → gone n ≡ 0
gone_pos zero h = absurd (omega (arith, h))
gone_pos (suc n) h = refl

one_less : (n k : ℕ) → n ≡ suc k → suc k < 2 ^ 32 → (n + (2 ^ 32 - 1)) % 2 ^ 32 ≡ k
one_less n k e h = omega (arith, e, h)

is_owned : (b : Bool) → owned_count b + 0 ≡ 1 → b ≡ true
is_owned true e = refl
is_owned false e = absurd (omega (arith, e))

not_owned : (b : Bool) → owned_count b + 1 ≡ 1 → b ≡ false
not_owned true e = absurd (omega (arith, e))
not_owned false e = refl

pub copy_ref-Counted :
    {d : Bool} (b : RefControlBlock) (r v : ℕ)
    → suc (suc r) + v < 2 ^ 32
    → Counted d b (suc r) v
    → Counted d (copy_ref b) (suc (suc r)) v
unfolding copy_ref
copy_ref-Counted b r v few c = record {
  refs = omega (arith, c.refs, few);
  views = c.views;
  few = few;
  object = c.object;
  no_destroy = c.no_destroy;
  no_drop = c.no_drop;
  same_deleter = λ some_. c.same_deleter refl;
  kept = c.kept;
  block = omega (
    arith,
    c.block,
    gone_pos (suc r + v) (omega arith),
    gone_pos (suc (suc r) + v) (omega arith),
  );
}

pub copy_view-Counted :
    {d : Bool} (b : RefControlBlock) (r v : ℕ)
    → r + suc v < 2 ^ 32
    → 0 < r + v
    → Counted d b r v
    → Counted d (copy_view b) r (suc v)
unfolding copy_view
copy_view-Counted b r v few some_ c = record {
  refs = c.refs;
  views = omega (arith, c.views, few);
  few = few;
  object = c.object;
  no_destroy = c.no_destroy;
  no_drop = c.no_drop;
  same_deleter = c.same_deleter;
  kept = c.kept;
  block = omega (arith, c.block, gone_pos (r + v) some_, gone_pos (r + suc v) (omega arith));
}

-- The last reference ends the object, by its destructor, into other hands, or without a deleter.
ended :
    {d : Bool} (b : RefControlBlock) (v destroyed given dropped : ℕ) (deleter : Bool)
    → (b.views ≡ v)
    → v < 2 ^ 32
    → destroyed + given + dropped ≡ 1
    → (d ≡ false → destroyed ≡ 0)
    → (d ≡ true → dropped ≡ 0)
    → b.deallocated ≡ 0
    → let after = record b {
      refs = 0;
      owned = false;
      deleter = deleter;
      destroyed = destroyed;
      given = given;
      dropped = dropped;
    } in
      Counted d (if after.views == 0 then dealloc after else after) 0 v
unfolding dealloc
ended b zero destroyed given dropped deleter views few once undestroyed undropped none_ =
    let empty : (b.views == 0) ≡ true = ground (arith, views) in
    rw empty (record {
      refs = refl;
      views = views;
      few = omega arith;
      object = once;
      no_destroy = undestroyed;
      no_drop = undropped;
      same_deleter = λ e. absurd (omega (arith, e));
      kept = refl;
      block = omega (arith, none_);
    })
ended b (suc v) destroyed given dropped deleter views few once undestroyed undropped none_ =
    let viewed : (b.views == 0) ≡ false = ground (arith, views) in
    rw viewed (record {
      refs = refl;
      views = views;
      few = omega (arith, few);
      object = once;
      no_destroy = undestroyed;
      no_drop = undropped;
      same_deleter = λ e. absurd (omega (arith, e));
      kept = refl;
      block = omega (arith, none_, gone_pos (0 + suc v) (omega arith));
    })

pub reset-Counted :
    {d : Bool} (b : RefControlBlock) (r v : ℕ) → Counted d b (suc r) v → Counted d (reset b) r v
unfolding reset destroy_object
reset-Counted b zero v c =
    let last : (b.refs + (2 ^ 32 - 1)) % 2 ^ 32 ≡ 0 =
      one_less b.refs 0 c.refs (omega (arith, c.few)) in
    let same = c.same_deleter refl in
    let held = is_owned b.owned c.kept in
    let none_ : b.deallocated ≡ 0 = omega (arith, c.block, gone_pos (1 + v) (omega arith)) in
    elim (Bool-cases b.deleter) [
      | inl has ↦
          rw (last, has)
            (ended b v (b.destroyed + 1) b.given b.dropped true c.views (omega (arith, c.few))
              (omega (arith, c.object)) (λ e. cc) c.no_drop none_)
      | inr lacks ↦
          rw (last, lacks, held)
            (ended b v b.destroyed b.given (b.dropped + 1) false c.views (omega (arith, c.few))
              (omega (arith, c.object)) c.no_destroy (λ e. cc) none_)
    ]
reset-Counted b (suc r) v c =
    let more : (b.refs + (2 ^ 32 - 1)) % 2 ^ 32 ≡ suc r =
      one_less b.refs (suc r) c.refs (omega (arith, c.few)) in
    let positive : (suc r == 0) ≡ false = ground arith in
    rw (more, positive)
      (record {
        refs = refl;
        views = c.views;
        few = omega (arith, c.few);
        object = c.object;
        no_destroy = c.no_destroy;
        no_drop = c.no_drop;
        same_deleter = λ some_. c.same_deleter refl;
        kept = c.kept;
        block = omega (
          arith,
          c.block,
          gone_pos (suc (suc r) + v) (omega arith),
          gone_pos (suc r + v) (omega arith),
        );
      })

pub give_away-Counted :
    {d : Bool} (b : RefControlBlock) (v : ℕ) → Counted d b 1 v → Counted d (give_away b) 0 v
unfolding give_away reset destroy_object
give_away-Counted b v c =
    let last : (b.refs + (2 ^ 32 - 1)) % 2 ^ 32 ≡ 0 =
      one_less b.refs 0 c.refs (omega (arith, c.few)) in
    rw last (
      ended b v b.destroyed (b.given + 1) b.dropped false c.views (omega (arith, c.few))
        (omega (arith, c.object)) c.no_destroy c.no_drop
        (omega (arith, c.block, gone_pos (1 + v) (omega arith))))

pub release_view-Counted :
    {d : Bool} (b : RefControlBlock) (r v : ℕ)
    → Counted d b r (suc v)
    → Counted d (release_view b) r v
unfolding release_view dealloc
release_view-Counted b zero zero c =
    let less : (b.views + (2 ^ 32 - 1)) % 2 ^ 32 ≡ 0 =
      one_less b.views 0 c.views (omega (arith, c.few)) in
    let none_ : (b.refs == 0) ≡ true = ground (arith, c.refs) in
    rw (less, none_)
      (record {
        refs = c.refs;
        views = refl;
        few = omega arith;
        object = c.object;
        no_destroy = c.no_destroy;
        no_drop = c.no_drop;
        same_deleter = c.same_deleter;
        kept = c.kept;
        block = omega (arith, c.block, gone_pos (0 + 1) (omega arith));
      })
release_view-Counted b (suc r) zero c =
    let less : (b.views + (2 ^ 32 - 1)) % 2 ^ 32 ≡ 0 =
      one_less b.views 0 c.views (omega (arith, c.few)) in
    let some_ : (b.refs == 0) ≡ false = ground (arith, c.refs) in
    rw (less, some_)
      (record {
        refs = c.refs;
        views = refl;
        few = omega (arith, c.few);
        object = c.object;
        no_destroy = c.no_destroy;
        no_drop = c.no_drop;
        same_deleter = c.same_deleter;
        kept = c.kept;
        block = omega (
          arith,
          c.block,
          gone_pos (suc r + 1) (omega arith),
          gone_pos (suc r + 0) (omega arith),
        );
      })
release_view-Counted b r (suc v) c =
    let less : (b.views + (2 ^ 32 - 1)) % 2 ^ 32 ≡ suc v =
      one_less b.views (suc v) c.views (omega (arith, c.few)) in
    let positive : (suc v == 0) ≡ false = ground arith in
    rw (less, positive)
      (record {
        refs = c.refs;
        views = refl;
        few = omega (arith, c.few);
        object = c.object;
        no_destroy = c.no_destroy;
        no_drop = c.no_drop;
        same_deleter = c.same_deleter;
        kept = c.kept;
        block = omega (
          arith,
          c.block,
          gone_pos (r + suc (suc v)) (omega arith),
          gone_pos (r + suc v) (omega arith),
        );
      })
