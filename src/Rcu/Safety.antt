-- ===== src/Rcu/Safety.antt =====
-- No reader loses an object that it holds.
use abix.Prelude.{
  ℕ, ◌+◌, ◌≤◌, ◌≡◌, refl, sym, subst, arith, Bool, true, false, ◌==◌, List, [], ◌∷◌, none,
  Bool-cases, inl, inr,
}
use abix.Rcu.Domain.{
  Purpose, Task, idle, waiting, polling, measuring, Domain, put, has, reader_passed, lower,
}
use abix.Rcu.Steps.{
  Step, Steps, register, load, store, leave, read, unlink, retire, synchronize, synchronize_until,
  scan, passed, blocked, proven, expired, try_collect, survey, measure, sweep_up, stay, next,
}
use abix.Rcu.Invariant.{bound, is_unseen, Inv, retask}
use abix.Rcu.Readers.{register_thread-Inv, enter_load-Inv, enter_store-Inv, exit-Inv}
use abix.Rcu.Writers.{read-Inv, unlink-Inv, retire_impl-Inv}
use abix.Rcu.Advance.{begin_advance-Inv, begin_synchronize-Inv}
use abix.Rcu.Ending.{end_advance-Inv, give_up-Inv, try_collect_begin-Inv, try_collect_end-Inv}

-- A domain before its first use, over any objects that readers can reach.
abbrev pub initial : (ℕ → Bool) → Domain
initial linked = record {
  global = 1;
  completed = 0;
  completed_eager = 0;
  sync = 0;
  sync_count = 0;
  threads = [];
  epoch = λ t. 0;
  loaded = λ t. none;
  retired = [];
  batch = λ t. [];
  task = λ w. idle;
  linked = linked;
  holds = λ t o. false;
  reclaimed = λ o. false;
}

pub initial-Inv : (linked : ℕ → Bool) → Inv (initial linked)
initial-Inv linked = record {
  state = record {
    inside = λ t o h. refl;
    alive = λ t o h. refl;
    reachable = λ o h. refl;
    past = λ t. omega arith;
    loads = λ t e h. absurd (cc);
    bounds = λ w. omega arith;
    registered = λ t h. refl;
  };
  shared = tt;
  local = λ t. tt;
}

clash : {b : Bool} → b ≡ true → b ≡ false → ⊥
clash p q = absurd (cc)

-- The scan starts over all registered threads; another holds nothing.
scan-Inv :
    (s : Domain) (w : ℕ) (task : Task)
    → Inv s
    → bound task ≤ s.global
    → ((t : ℕ) → is_unseen task t ≡ false → has t s.threads ≡ false)
    → Inv (record s { task = put s.task w task })
scan-Inv s w task i low all_ = retask s w task i low (λ n ok t unseen held.
    absurd (clash held (i.state.inside t n.object (i.state.registered t (all_ t unseen)))))

-- A reader that passed is outside, or entered after the advancement.
passed-Inv :
    (s : Domain) (w old t : ℕ) (purpose : Purpose) (rest : List ℕ)
    → s.task w ≡ polling old purpose (t ∷ rest)
    → reader_passed old (s.epoch t) ≡ true
    → Inv s
    → Inv (record s { task = put s.task w (polling old purpose rest) })
unfolding reader_passed
passed-Inv s w old t purpose rest at passes i =
    let low : old + 1 ≤ s.global = subst (λ k. bound k ≤ s.global) at (i.state.bounds w) in
    retask s w (polling old purpose rest) i low (λ n ok u unseen held. elim (Bool-cases (u == t)) [
      | inl hit ↦
          let same : u ≡ t = ground (arith, hit) in
          let before : s.epoch t ≤ n.epoch =
            subst (λ v. s.epoch v ≤ n.epoch) same (ok.entered u held) in
          elim (Bool-cases (s.epoch t == 0)) [
            | inl out ↦
                let zeroed : s.epoch t ≡ 0 = ground (arith, out) in
                absurd (
                  clash held
                    (i.state.inside u n.object (subst (λ v. s.epoch v ≡ 0) (sym same) zeroed)))
            | inr within ↦ ground (arith, passes, within, before)
          ]
      | inr miss ↦
          let earlier =
            subst (λ k. is_unseen k u ≡ false → bound k ≤ n.epoch) at (λ h. ok.seen w u h held) in
          earlier (rw (miss, unseen) refl)
    ])

measure-Inv :
    (s : Domain) (w least t : ℕ) (rest : List ℕ)
    → s.task w ≡ measuring least (t ∷ rest)
    → Inv s
    → Inv (record s { task = put s.task w (measuring (lower least (s.epoch t)) rest) })
unfolding lower
measure-Inv s w least t rest at i =
    let low : least ≤ s.global = subst (λ k. bound k ≤ s.global) at (i.state.bounds w) in
    let lowered : lower least (s.epoch t) ≤ least = ground arith in
    retask s w (measuring (lower least (s.epoch t)) rest) i (omega (arith, low, lowered))
      (λ n ok u unseen held. elim (Bool-cases (u == t)) [
        | inl hit ↦
            let same : u ≡ t = ground (arith, hit) in
            let before : s.epoch t ≤ n.epoch =
              subst (λ v. s.epoch v ≤ n.epoch) same (ok.entered u held) in
            elim (Bool-cases (s.epoch t == 0)) [
              | inl out ↦
                  let zeroed : s.epoch t ≡ 0 = ground (arith, out) in
                  absurd (
                    clash held
                      (i.state.inside u n.object (subst (λ v. s.epoch v ≡ 0) (sym same) zeroed)))
              | inr within ↦ below within before
            ]
        | inr miss ↦
            let earlier =
              subst (λ k. is_unseen k u ≡ false → bound k ≤ n.epoch) at (λ h. ok.seen w u h held) in
            let enough : least ≤ n.epoch = earlier (rw (miss, unseen) refl) in
            omega (arith, enough, lowered)
      ])
  where
    below : {m : ℕ} → (s.epoch t == 0) ≡ false → s.epoch t ≤ m → lower least (s.epoch t) ≤ m
    below within before = ground (arith, within, before)

Step-Inv : (s t : Domain) → Step s t → Inv s → Inv t
Step-Inv _ _ (register s t) i = register_thread-Inv s t i
Step-Inv _ _ (load s t out) i = enter_load-Inv s t out i
Step-Inv _ _ (store s t e found known) i = enter_store-Inv s t e found known i
Step-Inv _ _ (leave s t stored) i = exit-Inv s t i
Step-Inv _ _ (read s t o within linked) i = read-Inv s t o within linked i
Step-Inv _ _ (unlink s o) i = unlink-Inv s o i
Step-Inv _ _ (retire s t o reclaim cls allocated gone) i =
    retire_impl-Inv s t o reclaim cls allocated gone i
Step-Inv _ _ (synchronize s w cls free low) i = begin_synchronize-Inv s w cls low i
Step-Inv _ _ (synchronize_until s w free low) i = begin_advance-Inv s w low i
Step-Inv _ _ (scan s w old purpose at) i =
    scan-Inv s w (polling old purpose s.threads) i
      (subst (λ k. bound k ≤ s.global) at (i.state.bounds w)) (λ t h. h)
Step-Inv _ _ (passed s w old t purpose rest at passes) i =
    passed-Inv s w old t purpose rest at passes i
Step-Inv _ _ (blocked s w old t purpose rest at blocks) i =
    retask s w (waiting old purpose) i (subst (λ k. bound k ≤ s.global) at (i.state.bounds w))
      (λ n ok u unseen held. absurd (clash refl unseen))
Step-Inv _ _ (proven s w old purpose at) i = end_advance-Inv s w old purpose at i
Step-Inv _ _ (expired s w old at) i = give_up-Inv s w i
Step-Inv _ _ (try_collect s w free) i = try_collect_begin-Inv s w i
Step-Inv _ _ (survey s w least at) i =
    scan-Inv s w (measuring least s.threads) i
      (subst (λ k. bound k ≤ s.global) at (i.state.bounds w)) (λ t h. h)
Step-Inv _ _ (measure s w least t rest at) i = measure-Inv s w least t rest at i
Step-Inv _ _ (sweep_up s w least at) i = try_collect_end-Inv s w least at i

pub Steps-Inv : (s t : Domain) → Steps s t → Inv s → Inv t
Steps-Inv _ _ (stay s) i = i
Steps-Inv _ _ (next s t u one more) i = Steps-Inv t u more (Step-Inv s t one i)

-- In every state that threads can bring a new domain to, in any interleaving of their actions: an object
-- that a reader holds, since it read it inside of its present read-side section, was not reclaimed.
pub held-alive :
    (linked : ℕ → Bool) (s : Domain) (t o : ℕ)
    → Steps (initial linked) s
    → s.holds t o ≡ true
    → s.reclaimed o ≡ false
held-alive linked s t o run held =
    (Steps-Inv (initial linked) s run (initial-Inv linked)).state.alive t o held
