-- ===== src/Rcu/Ending.antt =====
-- The sections that collect, and the end of an advancement, keep the invariant.
use abix.Prelude.{ℕ, ◌-◌, ◌<◌, ◌≡◌, refl, arith, true, false, leb, ltb, [], Bool-cases, inl, inr}
use abix.Rcu.Domain.{
  ReclaimClass, batched, eager, Purpose, one_class, both_classes, Task, idle, polling, sampled,
  measuring, Domain, put, watermark, mark, sweep, collect, end_advance, give_up, try_collect_begin,
  try_collect_end, publish_local_batch,
}
use abix.Rcu.Invariant.{Inv, carry, retask}
use abix.Rcu.Writers.{publish_local_batch-Inv}
use abix.Rcu.Collector.{Finished, sweep-Inv}

mark-Inv : (s : Domain) (safe : ℕ) (cls : ReclaimClass) → Inv s → Inv (mark cls safe s)
mark-Inv s safe batched i =
    carry s (record s { completed = safe }) i refl refl
      (record {
        inside = i.state.inside;
        alive = i.state.alive;
        reachable = i.state.reachable;
        past = i.state.past;
        loads = i.state.loads;
        bounds = i.state.bounds;
        registered = i.state.registered;
      })
      (λ n ok. record { unlinked = ok.unlinked; entered = ok.entered; seen = ok.seen })
mark-Inv s safe eager i =
    carry s (record s { completed_eager = safe }) i refl refl
      (record {
        inside = i.state.inside;
        alive = i.state.alive;
        reachable = i.state.reachable;
        past = i.state.past;
        loads = i.state.loads;
        bounds = i.state.bounds;
        registered = i.state.registered;
      })
      (λ n ok. record { unlinked = ok.unlinked; entered = ok.entered; seen = ok.seen })

mark-Finished :
    (s : Domain) (w safe : ℕ) (task : Task) (cls : ReclaimClass)
    → Finished s w safe task
    → Finished (mark cls safe s) w safe task
mark-Finished s w safe task batched f = record {
  current = f.current;
  everyone = f.everyone;
  below = f.below;
}
mark-Finished s w safe task eager f = record {
  current = f.current;
  everyone = f.everyone;
  below = f.below;
}

pub collect-Inv :
    (s : Domain) (w safe : ℕ) (task : Task) (cls : ReclaimClass)
    → Finished s w safe task
    → Inv s
    → Inv (collect safe cls s) × Finished (collect safe cls s) w safe task
unfolding collect sweep
collect-Inv s w safe task cls f i = elim (Bool-cases (leb safe (watermark cls s))) [
  | inl done ↦ rw done (i, f)
  | inr due ↦
      let g = mark-Finished s w safe task cls f in
      rw due (
        sweep-Inv (mark cls safe s) w safe task cls g (mark-Inv s safe cls i),
        record { current = g.current; everyone = g.everyone; below = g.below },
      )
]

ended : (s : Domain) (w : ℕ) → Inv s → Inv (record s { sync = 0; task = put s.task w idle })
ended s w i =
    let at_rest = retask s w idle i (omega arith) (λ n ok t unseen held. omega arith) in
    carry (record s { task = put s.task w idle }) _ at_rest refl refl
      (record {
        inside = at_rest.state.inside;
        alive = at_rest.state.alive;
        reachable = at_rest.state.reachable;
        past = at_rest.state.past;
        loads = at_rest.state.loads;
        bounds = at_rest.state.bounds;
        registered = at_rest.state.registered;
      })
      (λ n ok. record { unlinked = ok.unlinked; entered = ok.entered; seen = ok.seen })

pub end_advance-Inv :
    (s : Domain) (w old : ℕ) (purpose : Purpose)
    → s.task w ≡ polling old purpose []
    → Inv s
    → Inv (end_advance w old purpose s)
unfolding end_advance
end_advance-Inv s w old (one_class cls) at_end i =
    let f : Finished s w old (polling old (one_class cls) []) = record {
      current = at_end;
      everyone = λ t. refl;
      below = omega arith;
    } in
    ended (collect old cls s) w (collect-Inv s w old (polling old (one_class cls) []) cls f i).0
end_advance-Inv s w old both_classes at_end i =
    let f : Finished s w old (polling old both_classes []) = record {
      current = at_end;
      everyone = λ t. refl;
      below = omega arith;
    } in
    let (i', f') = collect-Inv s w old (polling old both_classes []) eager f i in
    ended _ w
      (collect-Inv (collect old eager s) w old (polling old both_classes []) batched f' i').0

pub give_up-Inv : (s : Domain) (w : ℕ) → Inv s → Inv (give_up w s)
unfolding give_up
give_up-Inv s w i = ended s w i

pub try_collect_begin-Inv : (s : Domain) (w : ℕ) → Inv s → Inv (try_collect_begin w s)
unfolding try_collect_begin publish_local_batch
try_collect_begin-Inv s w i =
    retask (publish_local_batch w s) w (sampled s.global) (publish_local_batch-Inv s w i)
      (omega arith) (λ n ok t unseen held. absurd (true_false unseen))
  where
    true_false : true ≡ false → ⊥
    true_false e = absurd (cc)

pub try_collect_end-Inv :
    (s : Domain) (w least : ℕ)
    → s.task w ≡ measuring least []
    → Inv s
    → Inv (try_collect_end w least s)
unfolding try_collect_end
try_collect_end-Inv s w least at_end i = elim (Bool-cases (ltb 1 least)) [
  | inl more ↦
      let positive : 1 < least = ground (arith, more) in
      let f : Finished s w (least - 1) (measuring least []) = record {
        current = at_end;
        everyone = λ t. refl;
        below = omega (arith, positive);
      } in
      let (i', f') = collect-Inv s w (least - 1) (measuring least []) eager f i in
      let i'' =
        (collect-Inv (collect (least - 1) eager s) w (least - 1) (measuring least []) batched f'
          i').0 in
      rw more (retask _ w idle i'' (omega arith) (λ n ok t unseen held. omega arith))
  | inr none_ ↦ rw none_ (retask s w idle i (omega arith) (λ n ok t unseen held. omega arith))
]
