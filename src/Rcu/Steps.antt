-- ===== src/Rcu/Steps.antt =====
-- include/SKL/ABIX/RCU/Domain.h: the atomic actions of the threads that use a domain.
use abix.Prelude.{ℕ, ◌+◌, ◌^◌, ◌<◌, ◌≡◌, ◌≢◌, Bool, true, false, List, [], ◌∷◌, none, some}
use abix.Rcu.Domain.{
  ReclaimClass, Purpose, both_classes, idle, waiting, polling, sampled, measuring, Domain, put, has,
  register_thread, enter_load, enter_store, exit, retire_impl, begin_advance, begin_synchronize,
  reader_passed, end_advance, give_up, try_collect_begin, lower, try_collect_end,
}

-- Read-side sections do not nest, an object is retired after it was unlinked, and the epoch does not
-- reach 2 ^ 64.
pub data Step : Domain → Domain → Type 0 where
  register : (s : Domain) (t : ℕ) → Step s (register_thread t s)
  load : (s : Domain) (t : ℕ) → s.epoch t ≡ 0 → Step s (enter_load t s)
  store :
      (s : Domain) (t e : ℕ)
      → s.loaded t ≡ some e
      → has t s.threads ≡ true
      → Step s (enter_store t e s)
  leave : (s : Domain) (t : ℕ) → s.loaded t ≡ none → Step s (exit t s)
  read :
      (s : Domain) (t o : ℕ)
      → s.epoch t ≢ 0
      → s.linked o ≡ true
      → Step s (record s { holds = put s.holds t (put (s.holds t) o true) })
  unlink : (s : Domain) (o : ℕ) → Step s (record s { linked = put s.linked o false })
  retire :
      (s : Domain) (t o : ℕ) (reclaim : Bool) (cls : ReclaimClass) (allocated : Bool)
      → s.linked o ≡ false
      → Step s ((retire_impl t o reclaim cls allocated s).1)
  synchronize :
      (s : Domain) (w : ℕ) (cls : ReclaimClass)
      → s.task w ≡ idle
      → s.global + 1 < 2 ^ 64
      → Step s (begin_synchronize w cls s)
  synchronize_until :
      (s : Domain) (w : ℕ) → s.task w ≡ idle → s.global + 1 < 2 ^ 64 → Step s (begin_advance w s)
  scan :
      (s : Domain) (w old : ℕ) (purpose : Purpose)
      → s.task w ≡ waiting old purpose
      → Step s (record s { task = put s.task w (polling old purpose s.threads) })
  passed :
      (s : Domain) (w old t : ℕ) (purpose : Purpose) (rest : List ℕ)
      → s.task w ≡ polling old purpose (t ∷ rest)
      → reader_passed old (s.epoch t) ≡ true
      → Step s (record s { task = put s.task w (polling old purpose rest) })
  blocked :
      (s : Domain) (w old t : ℕ) (purpose : Purpose) (rest : List ℕ)
      → s.task w ≡ polling old purpose (t ∷ rest)
      → reader_passed old (s.epoch t) ≡ false
      → Step s (record s { task = put s.task w (waiting old purpose) })
  proven :
      (s : Domain) (w old : ℕ) (purpose : Purpose)
      → s.task w ≡ polling old purpose []
      → Step s (end_advance w old purpose s)
  expired : (s : Domain) (w old : ℕ) → s.task w ≡ waiting old both_classes → Step s (give_up w s)
  try_collect : (s : Domain) (w : ℕ) → s.task w ≡ idle → Step s (try_collect_begin w s)
  survey :
      (s : Domain) (w least : ℕ)
      → s.task w ≡ sampled least
      → Step s (record s { task = put s.task w (measuring least s.threads) })
  measure :
      (s : Domain) (w least t : ℕ) (rest : List ℕ)
      → s.task w ≡ measuring least (t ∷ rest)
      → Step s (record s { task = put s.task w (measuring (lower least (s.epoch t)) rest) })
  sweep_up :
      (s : Domain) (w least : ℕ)
      → s.task w ≡ measuring least []
      → Step s (try_collect_end w least s)

pub data Steps : Domain → Domain → Type 0 where
  stay : (s : Domain) → Steps s s
  next : (s t u : Domain) → Step s t → Steps t u → Steps s u
