-- ===== src/Rcu/Progress.antt =====
-- A grace period ends once the readers left, and one thread at a time owns an advancement.
use abix.Prelude.{
  ℕ, ◌+◌, ◌≤◌, ◌≡◌, refl, subst, arith, Bool, true, ◌==◌, leb, List, [], ◌∷◌, Bool-cases, inl, inr,
}
use abix.Rcu.Domain.{
  ReclaimClass, batched, eager, Purpose, one_class, both_classes, idle, waiting, polling, Domain,
  put, reader_passed, readers_passed, watermark, sweep, collect, end_advance, enter_load,
  enter_store,
}
use abix.Rcu.Steps.{Step, Steps, scan, passed, proven, stay, next}
use abix.Rcu.Invariant.{bound}
use abix.Rcu.Safety.{initial, initial-Inv, Steps-Inv}

put-same : {A : Type 0} (f : ℕ → A) (k : ℕ) (v : A) → put f k v k ≡ v
put-same f k v = let same : (k == k) ≡ true = ground arith in rw same refl

-- Every class that the advancement collects has its watermark at the epoch or above.
abbrev pub CollectedThrough : ℕ → Purpose → Domain → Type 0
CollectedThrough old (one_class cls) s = old ≤ watermark cls s
CollectedThrough old both_classes s = (old ≤ watermark eager s) × (old ≤ watermark batched s)

watermark-collect :
    (s : Domain) (old : ℕ) (cls : ReclaimClass) → old ≤ watermark cls (collect old cls s)
unfolding collect sweep
watermark-collect s old batched = elim (Bool-cases (leb old s.completed)) [
  | inl done ↦ rw done (ground (arith, done))
  | inr due ↦ rw due (omega arith)
]
watermark-collect s old eager = elim (Bool-cases (leb old s.completed_eager)) [
  | inl done ↦ rw done (ground (arith, done))
  | inr due ↦ rw due (omega arith)
]

eager-kept : (s : Domain) (old : ℕ) → (collect old batched s).completed_eager ≡ s.completed_eager
unfolding collect sweep
eager-kept s old = elim (Bool-cases (leb old s.completed)) [
  | inl done ↦ rw done refl
  | inr due ↦ rw due refl
]

-- The actions of one thread on the advancement that it owns: the start of a scan, a reader that it finds
-- passed, and the end.
pub data Own (w : ℕ) : (s t : Domain) → Step s t → Type 0 where
  own_scan :
      (s : Domain) (old : ℕ) (purpose : Purpose) (at : s.task w ≡ waiting old purpose)
      → Own w s
          (record s { task = put s.task w (polling old purpose s.threads) })
          (scan s w old purpose at)
  own_passed :
      (s : Domain) (old t : ℕ) (purpose : Purpose) (rest : List ℕ)
      (at : s.task w ≡ polling old purpose (t ∷ rest))
      (passes : reader_passed old (s.epoch t) ≡ true)
      → Own w s
          (record s { task = put s.task w (polling old purpose rest) })
          (passed s w old t purpose rest at passes)
  own_proven :
      (s : Domain) (old : ℕ) (purpose : Purpose) (at : s.task w ≡ polling old purpose [])
      → Own w s (end_advance w old purpose s) (proven s w old purpose at)

-- A run in which no other thread acts.
pub data Alone (w : ℕ) : (s u : Domain) → Steps s u → Type 0 where
  alone_stay : (s : Domain) → Alone w s s (stay s)
  alone_next :
      (s t u : Domain) (one : Step s t) (rest : Steps t u)
      → Own w s t one
      → Alone w t u rest
      → Alone w s u (next s t u one rest)

-- The state in which the advancement of a thread ended.
pub record Ended (s : Domain) (w old : ℕ) (purpose : Purpose) : Type 0 where
  pub final : Domain
  pub run : Steps s final
  pub alone : Alone w s final run
  pub rests : final.task w ≡ idle
  pub released : final.sync ≡ 0
  pub collected : CollectedThrough old purpose final

end-Ended :
    (s : Domain) (w old : ℕ) (purpose : Purpose)
    → s.task w ≡ polling old purpose []
    → Ended s w old purpose
unfolding end_advance
end-Ended s w old (one_class cls) at = record {
  final = end_advance w old (one_class cls) s;
  run = next s _ _ (proven s w old (one_class cls) at) (stay _);
  alone = alone_next s _ _ _ _ (own_proven s old (one_class cls) at) (alone_stay _);
  rests = put-same (collect old cls s).task w idle;
  released = refl;
  collected = marked cls;
}
  where
    marked : (c : ReclaimClass) → old ≤ watermark c (end_advance w old (one_class c) s)
    marked batched = watermark-collect s old batched
    marked eager = watermark-collect s old eager
end-Ended s w old both_classes at = record {
  final = end_advance w old both_classes s;
  run = next s _ _ (proven s w old both_classes at) (stay _);
  alone = alone_next s _ _ _ _ (own_proven s old both_classes at) (alone_stay _);
  rests = put-same (collect old batched (collect old eager s)).task w idle;
  released = refl;
  collected = (
    rw (eager-kept (collect old eager s) old) (watermark-collect s old eager),
    watermark-collect (collect old eager s) old batched,
  );
}

poll-Ended :
    (rest : List ℕ) (s : Domain) (w old : ℕ) (purpose : Purpose)
    → s.task w ≡ polling old purpose rest
    → readers_passed old s.epoch rest ≡ true
    → Ended s w old purpose
unfolding readers_passed
poll-Ended [] s w old purpose at all_ = end-Ended s w old purpose at
poll-Ended (t ∷ rest) s w old purpose at all_ =
    let passes : reader_passed old (s.epoch t) ≡ true = ground (arith, all_) in
    let others : readers_passed old s.epoch rest ≡ true = ground (arith, all_) in
    let later =
      poll-Ended rest (record s { task = put s.task w (polling old purpose rest) }) w old purpose
        (put-same s.task w (polling old purpose rest)) others in
    record {
      final = later.final;
      run = next s _ _ (passed s w old t purpose rest at passes) later.run;
      alone = alone_next s _ _ _ _ (own_passed s old t purpose rest at passes) later.alone;
      rests = later.rests;
      released = later.released;
      collected = later.collected;
    }

-- A thread that owns an advancement, in a state in which every registered reader is outside or entered
-- after the advancement, has a run of its own actions alone, in which no other thread acts, that ends it: it
-- is idle again, the advancement is free for the next writer, and the classes that it collects are marked as
-- collected through the epoch before the advancement.
pub waiting-Ended :
    (s : Domain) (w old : ℕ) (purpose : Purpose)
    → s.task w ≡ waiting old purpose
    → readers_passed old s.epoch s.threads ≡ true
    → Ended s w old purpose
waiting-Ended s w old purpose at all_ =
    let polled = record s { task = put s.task w (polling old purpose s.threads) } in
    let later =
      poll-Ended s.threads (record s { task = put s.task w (polling old purpose s.threads) }) w old
        purpose (put-same s.task w (polling old purpose s.threads)) all_ in
    record {
      final = later.final;
      run = next s _ _ (scan s w old purpose at) later.run;
      alone = alone_next s _ _ _ _ (own_scan s old purpose at) later.alone;
      rests = later.rests;
      released = later.released;
      collected = later.collected;
    }

-- In every state that threads can bring a new domain to: while a thread waits for the readers of an
-- advancement, a reader that enters from then on does not hold it up.
pub enter-passes :
    (linked : ℕ → Bool) (s : Domain) (w old t : ℕ) (purpose : Purpose)
    → Steps (initial linked) s
    → s.task w ≡ waiting old purpose
    → reader_passed old ((enter_store t s.global (enter_load t s)).epoch t) ≡ true
unfolding enter_store enter_load reader_passed
enter-passes linked s w old t purpose run at =
    let ahead : old + 1 ≤ s.global =
      subst (λ k. bound k ≤ s.global) at
        ((Steps-Inv (initial linked) s run (initial-Inv linked)).state.bounds w) in
    rw (put-same s.epoch t s.global) (ground (arith, ahead))
