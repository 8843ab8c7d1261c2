-- ===== src/Rcu/Domain.antt =====
-- include/SKL/ABIX/RCU/Domain.h: the epoch domain. A section under the writer lock is one function on the
-- state. Threads and objects are numbers, the null object 0. The lists of ThreadState and RetiredNode are
-- lists, and the thread-local batch is a function of the thread. Memory is sequentially consistent.
use abix.Prelude.{
  ℕ, ◌+◌, ◌-◌, ◌%◌, ◌^◌, Bool, true, false, not, ◌&&◌, ◌||◌, ◌==◌, leb, ltb, if◌then◌else◌, List,
  [], ◌∷◌, ◌++◌, Option, none, some, length,
}

pub data ReclaimClass : Type 0 where
  batched eager : ReclaimClass

pub record RetiredNode : Type 0 where
  pub object : ℕ
  pub epoch : ℕ
  -- the callback is not null
  pub reclaim : Bool
  pub cls : ReclaimClass

-- What an advancement collects: synchronize_impl one class, synchronize_until both.
pub data Purpose : Type 0 where
  one_class : ReclaimClass → Purpose
  both_classes : Purpose

-- Where a thread stands in a grace period: nowhere; before a scan of the readers; in it, with the
-- threads left; in try_collect, after its locked section; in its scan, with the least epoch so far.
pub data Task : Type 0 where
  idle : Task
  waiting : (old : ℕ) (purpose : Purpose) → Task
  polling : (old : ℕ) (purpose : Purpose) (rest : List ℕ) → Task
  sampled : (least : ℕ) → Task
  measuring : (least : ℕ) (rest : List ℕ) → Task

pub record Domain : Type 0 where
  pub global : ℕ
  pub completed : ℕ
  pub completed_eager : ℕ
  pub sync : ℕ
  pub sync_count : ℕ
  pub threads : List ℕ
  -- ThreadState::epoch
  pub epoch : ℕ → ℕ
  -- the local variable of `enter`, between its load and its store
  pub loaded : ℕ → Option ℕ
  pub retired : List RetiredNode
  pub batch : ℕ → List RetiredNode
  pub task : ℕ → Task
  -- the clients: an object that a reader can reach, what a reader holds, what was reclaimed
  pub linked : ℕ → Bool
  pub holds : ℕ → ℕ → Bool
  pub reclaimed : ℕ → Bool

abbrev pub put {ℓ} : {A : Type ℓ} → (ℕ → A) → ℕ → A → ℕ → A
put f k v j = if j == k then v else f j

abbrev pub has : ℕ → List ℕ → Bool
has x [] = false
has x (y ∷ ys) = x == y || has x ys

unfoldable pub register_thread : ℕ → Domain → Domain
register_thread t s = record s { threads = t ∷ s.threads }

-- The two halves of `enter`: the load of the global epoch and the store of the thread's.
unfoldable pub enter_load : ℕ → Domain → Domain
enter_load t s = record s { loaded = put s.loaded t (some s.global) }

unfoldable pub enter_store : ℕ → ℕ → Domain → Domain
enter_store t e s = record s { epoch = put s.epoch t e; loaded = put s.loaded t none }

unfoldable pub exit : ℕ → Domain → Domain
exit t s = record s { epoch = put s.epoch t 0; holds = put s.holds t (λ o. false) }

unfoldable pub publish_local_batch : ℕ → Domain → Domain
publish_local_batch t s = record s { retired = s.batch t ++ s.retired; batch = put s.batch t [] }

unfoldable pub queue : ℕ → RetiredNode → Domain → Domain
queue t node s = record s { batch = put s.batch t (s.batch t ++ node ∷ []) }

-- The token and the state; an allocation that failed leaves the state and returns 0.
unfoldable pub retire_impl : ℕ → ℕ → Bool → ReclaimClass → Bool → Domain → ℕ × Domain
retire_impl t object reclaim cls false s = (0, s)
retire_impl t object reclaim cls true s =
    let queued =
      queue t (record { object = object; epoch = s.global; reclaim = reclaim; cls = cls }) s in
    (s.global, if leb 64 (length (queued.batch t)) then publish_local_batch t queued else queued)

-- The increment of the global epoch, the store of `sync`, and the thread that owns the advancement.
unfoldable pub advance : ℕ → Purpose → Domain → Domain
advance w purpose s = record s {
  global = (s.global + 1) % 2 ^ 64;
  sync = (s.global + 1) % 2 ^ 64;
  task = put s.task w (waiting s.global purpose);
}

unfoldable pub begin_advance : ℕ → Domain → Domain
begin_advance w s =
    let published = publish_local_batch w s in
    if published.sync == 0 then advance w both_classes published else published

-- The locked section at the head of synchronize_impl, with its early returns.
unfoldable pub begin_synchronize : ℕ → ReclaimClass → Domain → Domain
begin_synchronize w eager s =
    let published = publish_local_batch w s in
    if published.sync == 0 then advance w (one_class eager) published else published
begin_synchronize w batched s =
    let published = publish_local_batch w s in
    if not (published.sync == 0)
    then published
    else if ltb (published.sync_count + 1) 8
    then record published { sync_count = published.sync_count + 1 }
    else advance w (one_class batched) (record published { sync_count = 0 })

-- One reader of the scan.
unfoldable pub reader_passed : ℕ → ℕ → Bool
reader_passed target epoch = epoch == 0 || ltb target epoch

-- The scan at one moment.
unfoldable pub readers_passed : ℕ → (ℕ → ℕ) → List ℕ → Bool
readers_passed target epoch [] = true
readers_passed target epoch (t ∷ ts) =
    reader_passed target (epoch t) && readers_passed target epoch ts

abbrev pub same_class : ReclaimClass → ReclaimClass → Bool
same_class batched batched = true
same_class eager eager = true
same_class _ _ = false

abbrev pub watermark : ReclaimClass → Domain → ℕ
watermark eager s = s.completed_eager
watermark batched s = s.completed

abbrev pub mark : ReclaimClass → ℕ → Domain → Domain
mark eager safe s = record s { completed_eager = safe }
mark batched safe s = record s { completed = safe }

abbrev pub is_due : ℕ → ReclaimClass → RetiredNode → Bool
is_due safe cls n = same_class n.cls cls && leb n.epoch safe

-- The loop over the retired list: the nodes that stay, and the objects whose callback runs.
unfoldable pub kept : ℕ → ReclaimClass → List RetiredNode → List RetiredNode
kept safe cls [] = []
kept safe cls (n ∷ ns) = let rest = kept safe cls ns in if is_due safe cls n then rest else n ∷ rest

unfoldable pub freed : ℕ → ReclaimClass → List RetiredNode → List ℕ
freed safe cls [] = []
freed safe cls (n ∷ ns) =
    let rest = freed safe cls ns in
    if is_due safe cls n && n.reclaim && not (n.object == 0) then n.object ∷ rest else rest

unfoldable pub sweep : ℕ → ReclaimClass → Domain → Domain
sweep safe cls s = record s {
  retired = kept safe cls s.retired;
  reclaimed = λ o. s.reclaimed o || has o (freed safe cls s.retired);
}

unfoldable pub collect : ℕ → ReclaimClass → Domain → Domain
collect safe cls s = if leb safe (watermark cls s) then s else sweep safe cls (mark cls safe s)

-- The locked section at the end of a grace period that was proven.
unfoldable pub end_advance : ℕ → ℕ → Purpose → Domain → Domain
end_advance w old (one_class cls) s = record (collect old cls s) {
  sync = 0;
  task = put (collect old cls s).task w idle;
}
end_advance w old both_classes s =
    let collected = collect old batched (collect old eager s) in
    record collected { sync = 0; task = put collected.task w idle }

-- The same with collect_now false.
unfoldable pub give_up : ℕ → Domain → Domain
give_up w s = record s { sync = 0; task = put s.task w idle }

-- try_collect: its first locked section, one reader of its scan, and its last section.
unfoldable pub try_collect_begin : ℕ → Domain → Domain
try_collect_begin w s =
    let published = publish_local_batch w s in
    record published { task = put published.task w (sampled published.global) }

unfoldable pub lower : ℕ → ℕ → ℕ
lower least e = if not (e == 0) && ltb e least then e else least

unfoldable pub try_collect_end : ℕ → ℕ → Domain → Domain
try_collect_end w least s =
    let collected =
      if ltb 1 least then collect (least - 1) batched (collect (least - 1) eager s) else s in
    record collected { task = put collected.task w idle }

-- reclaimed_through
unfoldable pub reclaimed_through : ℕ → ReclaimClass → Domain → Bool
reclaimed_through token cls s = not (token == 0) && leb token (watermark cls s)
