-- ===== src/Rcu/Ownership.antt =====
-- Every step leaves the advancement to one owner at most.
use abix.Prelude.{
  ℕ, ◌+◌, ◌-◌, ◌^◌, ◌<◌, ◌≡◌, ◌≢◌, sym, ap, subst, ◌∙◌, Bool, true, false, ◌==◌, leb, ltb, length,
  Bool-cases, inl, inr,
}
use abix.Rcu.Domain.{
  ReclaimClass, batched, eager, RetiredNode, Purpose, one_class, both_classes, Task, idle, sampled,
  Domain, put, register_thread, enter_load, enter_store, exit, publish_local_batch, queue,
  retire_impl, begin_advance, begin_synchronize, collect, end_advance, give_up, try_collect_begin,
  try_collect_end,
}
use abix.Rcu.Steps.{
  Step, Steps, register, load, store, leave, read, unlink, retire, synchronize, synchronize_until,
  scan, passed, blocked, proven, expired, try_collect, survey, measure, sweep_up, stay, next,
}
use abix.Rcu.Safety.{initial}
use abix.Rcu.Owner.{owns, Exclusive, kept, freed_by, advance-Exclusive, collect-task}

abbrev ExclusiveIn : Domain → Type 0
ExclusiveIn s = Exclusive s.task s.sync

published-Exclusive : (s : Domain) (w : ℕ) → ExclusiveIn s → ExclusiveIn (publish_local_batch w s)
unfolding publish_local_batch
published-Exclusive s w e = e

retire_impl-Exclusive :
    (s : Domain) (t o : ℕ) (reclaim : Bool) (cls : ReclaimClass) (allocated : Bool)
    → ExclusiveIn s
    → ExclusiveIn ((retire_impl t o reclaim cls allocated s).1)
unfolding retire_impl queue publish_local_batch
retire_impl-Exclusive s t o reclaim cls false e = e
retire_impl-Exclusive s t o reclaim cls true e =
    let node : RetiredNode = record {
      object = o;
      epoch = s.global;
      reclaim = reclaim;
      cls = cls;
    } in
    elim (Bool-cases (leb 64 (length ((queue t node s).batch t)))) [
      | inl full ↦ rw full e
      | inr room ↦ rw room e
    ]

begin_advance-Exclusive :
    (s : Domain) (w : ℕ) → s.global + 1 < 2 ^ 64 → ExclusiveIn s → ExclusiveIn (begin_advance w s)
unfolding begin_advance publish_local_batch
begin_advance-Exclusive s w low e = elim (Bool-cases (s.sync == 0)) [
  | inl free ↦ rw free (advance-Exclusive (publish_local_batch w s) w both_classes low free e)
  | inr taken ↦ rw taken e
]

begin_synchronize-Exclusive :
    (s : Domain) (w : ℕ) (cls : ReclaimClass)
    → s.global + 1 < 2 ^ 64
    → ExclusiveIn s
    → ExclusiveIn (begin_synchronize w cls s)
unfolding begin_synchronize publish_local_batch
begin_synchronize-Exclusive s w eager low e = elim (Bool-cases (s.sync == 0)) [
  | inl free ↦ rw free (advance-Exclusive (publish_local_batch w s) w (one_class eager) low free e)
  | inr taken ↦ rw taken e
]
begin_synchronize-Exclusive s w batched low e = elim (Bool-cases (s.sync == 0)) [
  | inl free ↦ elim (Bool-cases (ltb (s.sync_count + 1) 8)) [
    | inl early ↦ rw (free, early) e
    | inr due ↦
        rw (free, due)
          (advance-Exclusive (record (publish_local_batch w s) { sync_count = 0 }) w
            (one_class batched) low free e)
  ]
  | inr taken ↦ rw taken e
]

end_advance-Exclusive :
    (s : Domain) (w old : ℕ) (purpose : Purpose)
    → owns (s.task w) ≡ true
    → ExclusiveIn s
    → ExclusiveIn (end_advance w old purpose s)
unfolding end_advance
end_advance-Exclusive s w old (one_class cls) owner e =
    let (same, _) = collect-task s old cls in
    subst (λ task. Exclusive (put task w idle) 0) (sym same) (freed_by s.task s.sync w owner e)
end_advance-Exclusive s w old both_classes owner e =
    let (same, _) = collect-task s old eager in
    let (same', _) = collect-task (collect old eager s) old batched in
    subst (λ task. Exclusive (put task w idle) 0) (sym (same' ∙ same))
      (freed_by s.task s.sync w owner e)

try_collect_end-Exclusive :
    (s : Domain) (w least : ℕ)
    → owns (s.task w) ≡ false
    → ExclusiveIn s
    → ExclusiveIn (try_collect_end w least s)
unfolding try_collect_end
try_collect_end-Exclusive s w least rests e =
    let still = kept s.task s.sync w idle (sym rests) e in
    elim (Bool-cases (ltb 1 least)) [
      | inl more ↦
          let (task, sync) = collect-task s (least - 1) eager in
          let (task', sync') = collect-task (collect (least - 1) eager s) (least - 1) batched in
          rw more (
            subst
              (λ k.
                Exclusive (put k w idle)
                  (collect (least - 1) batched (collect (least - 1) eager s)).sync)
              (sym (task' ∙ task))
              (subst (λ n. Exclusive (put s.task w idle) n) (sym (sync' ∙ sync)) still))
      | inr none_ ↦ rw none_ still
    ]

owned : (s : Domain) (w : ℕ) {k : Task} → s.task w ≡ k → owns k ≡ owns (s.task w)
owned s w at = ap owns (sym at)

Step-Exclusive : (s t : Domain) → Step s t → ExclusiveIn s → ExclusiveIn t
unfolding register_thread enter_load enter_store exit give_up try_collect_begin publish_local_batch
Step-Exclusive _ _ (register s t) e = e
Step-Exclusive _ _ (load s t out) e = e
Step-Exclusive _ _ (store s t x found known) e = e
Step-Exclusive _ _ (leave s t stored) e = e
Step-Exclusive _ _ (read s t o within linked) e = e
Step-Exclusive _ _ (unlink s o) e = e
Step-Exclusive _ _ (retire s t o reclaim cls allocated gone) e =
    retire_impl-Exclusive s t o reclaim cls allocated e
Step-Exclusive _ _ (synchronize s w cls free low) e = begin_synchronize-Exclusive s w cls low e
Step-Exclusive _ _ (synchronize_until s w free low) e = begin_advance-Exclusive s w low e
Step-Exclusive _ _ (scan s w old purpose at) e = kept s.task s.sync w _ (owned s w at) e
Step-Exclusive _ _ (passed s w old t purpose rest at passes) e =
    kept s.task s.sync w _ (owned s w at) e
Step-Exclusive _ _ (blocked s w old t purpose rest at blocks) e =
    kept s.task s.sync w _ (owned s w at) e
Step-Exclusive _ _ (proven s w old purpose at) e =
    end_advance-Exclusive s w old purpose (sym (owned s w at)) e
Step-Exclusive _ _ (expired s w old at) e = freed_by s.task s.sync w (sym (owned s w at)) e
Step-Exclusive _ _ (try_collect s w free) e =
    kept s.task s.sync w (sampled s.global) (owned s w free) e
Step-Exclusive _ _ (survey s w least at) e = kept s.task s.sync w _ (owned s w at) e
Step-Exclusive _ _ (measure s w least t rest at) e = kept s.task s.sync w _ (owned s w at) e
Step-Exclusive _ _ (sweep_up s w least at) e =
    try_collect_end-Exclusive s w least (sym (owned s w at)) e

Steps-Exclusive : (s t : Domain) → Steps s t → ExclusiveIn s → ExclusiveIn t
Steps-Exclusive _ _ (stay s) e = e
Steps-Exclusive _ _ (next s t u one more) e = Steps-Exclusive t u more (Step-Exclusive s t one e)

-- In every state that threads can bring a new domain to, two threads that wait for the readers of an
-- advancement are the same thread, and `sync` is not 0 then.
pub owns-single :
    (linked : ℕ → Bool) (s : Domain) (v w : ℕ)
    → Steps (initial linked) s
    → owns (s.task v) ≡ true
    → owns (s.task w) ≡ true
    → (v ≡ w) × (s.sync ≢ 0)
owns-single linked s v w run p q =
    let e = Steps-Exclusive (initial linked) s run (record {
      taken = λ x h. absurd (impossible h);
      single = λ x y h g. absurd (impossible h);
    }) in
    (e.single v w p q, e.taken v p)
  where
    impossible : false ≡ true → ⊥
    impossible p = absurd (cc)
