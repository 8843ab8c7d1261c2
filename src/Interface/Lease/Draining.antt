-- ===== src/Interface/Lease/Draining.antt =====
-- The lease count against the threads, and what draining guarantees.
use abix.Prelude.{
  ℕ, ◌+◌, ◌^◌, ◌≤◌, ◌<◌, ◌≡◌, ◌≢◌, refl, arith, List, [], ◌∷◌, ◌++◌, length, length-append, All,
}
use abix.Interface.Lease.{
  ModuleState, active, loading, draining, unloaded, ModuleControl, activate_state, activate_module,
  begin_unload_state, begin_unload, mark_unloaded, add_lease, sub_lease, stay, next, enter, count,
  grant, refuse, undo, release, activate, unload, mark, Thread, outside, entered, counted, refused,
  holding, Step, Steps,
}

abbrev weight : Thread → ℕ
weight outside = 0
weight entered = 0
weight counted = 1
weight refused = 1
weight holding = 1

-- The threads whose increment stands.
abbrev total : List Thread → ℕ
total [] = 0
total (t ∷ ts) = weight t + total ts

total-append : (xs ys : List Thread) → total (xs ++ ys) ≡ total xs + total ys
total-append [] ys = omega arith
total-append (x ∷ xs) ys = omega (arith, total-append xs ys)

total-le : (xs : List Thread) → total xs ≤ length xs
total-le [] = omega arith
total-le (outside ∷ xs) = omega (arith, total-le xs)
total-le (entered ∷ xs) = omega (arith, total-le xs)
total-le (counted ∷ xs) = omega (arith, total-le xs)
total-le (refused ∷ xs) = omega (arith, total-le xs)
total-le (holding ∷ xs) = omega (arith, total-le xs)

abbrev pub Counts : ModuleControl × List Thread → Type 0
Counts (c, ts) = (c.leases ≡ total ts) × (length ts < 2 ^ 32)

same_length :
    (before after : List Thread) (t u : Thread)
    → length (before ++ t ∷ after) < 2 ^ 32
    → length (before ++ u ∷ after) < 2 ^ 32
same_length before after t u h =
    omega (arith, h, length-append before (t ∷ after), length-append before (u ∷ after))

Step-Counts : (s t : ModuleControl × List Thread) → Step s t → Counts s → Counts t
unfolding activate_module begin_unload mark_unloaded add_lease sub_lease
Step-Counts s t (enter c before after h) (n, small) = (
  omega (arith, n, total-append before (outside ∷ after), total-append before (entered ∷ after)),
  same_length before after outside entered small,
)
Step-Counts s t (count c before after) (n, small) = (
  omega (
    arith,
    n,
    total-append before (entered ∷ after),
    total-append before (counted ∷ after),
    total-le (before ++ counted ∷ after),
    small,
    length-append before (counted ∷ after),
    length-append before (entered ∷ after),
  ),
  same_length before after entered counted small,
)
Step-Counts s t (grant c before after h) (n, small) = (
  omega (arith, n, total-append before (counted ∷ after), total-append before (holding ∷ after)),
  same_length before after counted holding small,
)
Step-Counts s t (refuse c before after h) (n, small) = (
  omega (arith, n, total-append before (counted ∷ after), total-append before (refused ∷ after)),
  same_length before after counted refused small,
)
Step-Counts s t (undo c before after) (n, small) = (
  omega (
    arith,
    n,
    total-append before (refused ∷ after),
    total-append before (outside ∷ after),
    total-le (before ++ refused ∷ after),
    small,
    length-append before (refused ∷ after),
    length-append before (outside ∷ after),
  ),
  same_length before after refused outside small,
)
Step-Counts s t (release c before after) (n, small) = (
  omega (
    arith,
    n,
    total-append before (holding ∷ after),
    total-append before (outside ∷ after),
    total-le (before ++ holding ∷ after),
    small,
    length-append before (holding ∷ after),
    length-append before (outside ∷ after),
  ),
  same_length before after holding outside small,
)
Step-Counts s t (activate c ts) (n, small) = (n, small)
Step-Counts s t (unload c ts) (n, small) = (n, small)
Step-Counts s t (mark c ts) (n, small) = (n, small)

-- No thread has a lease.
abbrev pub Released : List Thread → Type 0
Released ts = All (λ t. t ≢ holding) ts

pub total-Released : (ts : List Thread) → total ts ≡ 0 → Released ts
total-Released [] h = tt
total-Released (outside ∷ ts) h = (λ e. cc, total-Released ts (omega (arith, h)))
total-Released (entered ∷ ts) h = (λ e. cc, total-Released ts (omega (arith, h)))
total-Released (counted ∷ ts) h = absurd (omega (arith, h))
total-Released (refused ∷ ts) h = absurd (omega (arith, h))
total-Released (holding ∷ ts) h = absurd (omega (arith, h))

pub Steps-Counts : (s t : ModuleControl × List Thread) → Steps s t → Counts s → Counts t
Steps-Counts s t (stay u) c = c
Steps-Counts s t (next x y z first rest) c = Steps-Counts y z rest (Step-Counts x y first c)

-- No lease is out and none can be taken.
abbrev pub Closed : ModuleControl × List Thread → Type 0
Closed (c, ts) = (c.state ≢ loading) × (c.state ≢ active) × Released ts

replace :
    (before after : List Thread) (t u : Thread)
    → u ≢ holding
    → Released (before ++ t ∷ after)
    → Released (before ++ u ∷ after)
replace [] after t u h r = (h, r.1)
replace (b ∷ before) after t u h r = (r.0, replace before after t u h r.1)

activate_kept :
    (s : ModuleState)
    → s ≢ loading
    → s ≢ active
    → ((activate_state s).1 ≢ loading) × ((activate_state s).1 ≢ active)
unfolding activate_state
activate_kept loading l a = absurd (l refl)
activate_kept active l a = absurd (a refl)
activate_kept draining l a = (l, a)
activate_kept unloaded l a = (l, a)

unload_kept :
    (s : ModuleState)
    → s ≢ loading
    → s ≢ active
    → ((begin_unload_state s).1 ≢ loading) × ((begin_unload_state s).1 ≢ active)
unfolding begin_unload_state
unload_kept loading l a = absurd (l refl)
unload_kept active l a = absurd (a refl)
unload_kept draining l a = (l, a)
unload_kept unloaded l a = (l, a)

Step-Closed : (s t : ModuleControl × List Thread) → Step s t → Closed s → Closed t
unfolding activate_module begin_unload mark_unloaded add_lease sub_lease activate_state
    begin_unload_state
Step-Closed s t (enter c before after h) (l, a, r) = absurd (a h)
Step-Closed s t (count c before after) (l, a, r) =
    (l, a, replace before after entered counted (λ e. cc) r)
Step-Closed s t (grant c before after h) (l, a, r) = absurd (a h)
Step-Closed s t (refuse c before after h) (l, a, r) =
    (l, a, replace before after counted refused (λ e. cc) r)
Step-Closed s t (undo c before after) (l, a, r) =
    (l, a, replace before after refused outside (λ e. cc) r)
Step-Closed s t (release c before after) (l, a, r) =
    (l, a, replace before after holding outside (λ e. cc) r)
Step-Closed s t (activate c ts) (l, a, r) = let (x, y) = activate_kept c.state l a in (x, y, r)
Step-Closed s t (unload c ts) (l, a, r) = let (x, y) = unload_kept c.state l a in (x, y, r)
Step-Closed s t (mark c ts) (l, a, r) = (λ e. cc, λ e. cc, r)

Steps-Closed : (s t : ModuleControl × List Thread) → Steps s t → Closed s → Closed t
Steps-Closed s t (stay u) c = c
Steps-Closed s t (next x y z first rest) c = Steps-Closed y z rest (Step-Closed x y first c)

-- Once a module that started with no lease and fewer than 2 ^ 32 threads is draining and its count
-- was seen at 0, no thread has a lease, then or after any further steps of the threads and the loader.
pub drained-Released :
    (start : ModuleControl) (threads : List Thread) (seen later : ModuleControl × List Thread)
    → Counts (start, threads)
    → Steps (start, threads) seen
    → seen.0.state ≡ draining
    → seen.0.leases ≡ 0
    → Steps seen later
    → Released later.1
drained-Released start threads seen later counts before drains idle after =
    let (n, _) = Steps-Counts (start, threads) seen before counts in
    (Steps-Closed seen later after
      (λ e. cc, λ e. cc, total-Released seen.1 (omega (arith, n, idle)))).2
