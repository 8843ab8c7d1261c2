-- ===== src/Rcu/Owner.antt =====
-- One thread at a time owns the advancement of the epoch.
use abix.Prelude.{
  ℕ, ◌+◌, ◌^◌, ◌<◌, ◌≡◌, ◌≢◌, refl, sym, subst, ◌∙◌, arith, Bool, true, false, ◌==◌, leb,
  Bool-cases, inl, inr,
}
use abix.Rcu.Domain.{
  ReclaimClass, batched, eager, Purpose, Task, idle, waiting, polling, sampled, measuring, Domain,
  put, advance, sweep, collect,
}

abbrev pub owns : Task → Bool
owns idle = false
owns (waiting old purpose) = true
owns (polling old purpose rest) = true
owns (sampled least) = false
owns (measuring least rest) = false

-- The owner, if there is one, is the only one, and `sync` shows it.
pub record Exclusive (task : ℕ → Task) (sync : ℕ) : Type 0 where
  pub taken : (w : ℕ) → owns (task w) ≡ true → sync ≢ 0
  pub single : (v w : ℕ) → owns (task v) ≡ true → owns (task w) ≡ true → v ≡ w

-- A thread's task after one task changed.
owner-cases :
    (task : ℕ → Task) (w : ℕ) (k : Task) (v : ℕ)
    → owns (put task w k v) ≡ true
    → owns k ≡ false
    → owns (task v) ≡ true
owner-cases task w k v h rests = elim (Bool-cases (v == w)) [
  | inl hit ↦ absurd (clash (rw hit at h) rests)
  | inr miss ↦ rw miss at h
]
  where
    clash : owns k ≡ true → owns k ≡ false → ⊥
    clash p q = absurd (cc)

-- The owner goes on, or another thread does what needs no ownership.
pub kept :
    (task : ℕ → Task) (sync w : ℕ) (k : Task)
    → owns k ≡ owns (task w)
    → Exclusive task sync
    → Exclusive (put task w k) sync
kept task sync w k same e = record {
  taken = λ v h. e.taken v (before v h);
  single = λ u v h g. e.single u v (before u h) (before v g);
}
  where
    before : (v : ℕ) → owns (put task w k v) ≡ true → owns (task v) ≡ true
    before v h = elim (Bool-cases (v == w)) [
      | inl hit ↦
          let at : v ≡ w = ground (arith, hit) in
          subst (λ x. owns (task x) ≡ true) (sym at) (sym same ∙ (rw hit at h))
      | inr miss ↦ rw miss at h
    ]

-- The owner of an advancement ends it.
pub freed_by :
    (task : ℕ → Task) (sync w : ℕ)
    → owns (task w) ≡ true
    → Exclusive task sync
    → Exclusive (put task w idle) 0
freed_by task sync w owner e = record {
  taken = λ v h. absurd (nobody v h);
  single = λ u v h g. absurd (nobody u h);
}
  where
    nobody : (v : ℕ) → owns (put task w idle v) ≡ true → ⊥
    nobody v h = elim (Bool-cases (v == w)) [
      | inl hit ↦ absurd (impossible (rw hit at h))
      | inr miss ↦ absurd (apart v miss (e.single v w (rw miss at h) owner))
    ]
      where
        impossible : false ≡ true → ⊥
        impossible p = absurd (cc)

        apart : (u : ℕ) → (u == w) ≡ false → u ≡ w → ⊥
        apart u p q = ground (arith, p, q)

pub advance-Exclusive :
    (s : Domain) (w : ℕ) (purpose : Purpose)
    → s.global + 1 < 2 ^ 64
    → (s.sync == 0) ≡ true
    → Exclusive s.task s.sync
    → Exclusive (advance w purpose s).task (advance w purpose s).sync
unfolding advance
advance-Exclusive s w purpose low free e = record {
  taken = λ v h z. omega (arith, low, z);
  single = λ u v h g. mine u h ∙ sym (mine v g);
}
  where
    mine : (v : ℕ) → owns (put s.task w (waiting s.global purpose) v) ≡ true → v ≡ w
    mine v h = elim (Bool-cases (v == w)) [
      | inl hit ↦ ground (arith, hit)
      | inr miss ↦ absurd (e.taken v (rw miss at h) (ground (arith, free)))
    ]

pub collect-task :
    (s : Domain) (safe : ℕ) (cls : ReclaimClass)
    → ((collect safe cls s).task ≡ s.task) × ((collect safe cls s).sync ≡ s.sync)
unfolding collect sweep
collect-task s safe batched = elim (Bool-cases (leb safe s.completed)) [
  | inl done ↦ rw done (refl, refl)
  | inr due ↦ rw due (refl, refl)
]
collect-task s safe eager = elim (Bool-cases (leb safe s.completed_eager)) [
  | inl done ↦ rw done (refl, refl)
  | inr due ↦ rw due (refl, refl)
]
