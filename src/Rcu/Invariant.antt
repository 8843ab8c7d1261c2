-- ===== src/Rcu/Invariant.antt =====
-- The invariant of the epoch domain, and how a change of the state carries it over.
use abix.Prelude.{
  ℕ, ◌+◌, ◌≤◌, ◌≡◌, refl, sym, subst, Bool, true, false, ◌==◌, List, [], ◌∷◌, some, All, Bool-cases,
  inl, inr,
}
use abix.Rcu.Domain.{
  RetiredNode, Task, idle, waiting, polling, sampled, measuring, Domain, put, has,
}

-- An epoch at or above which every node is that a reader holds whom the task has seen.
abbrev pub bound : Task → ℕ
bound idle = 0
bound (waiting old purpose) = old + 1
bound (polling old purpose rest) = old + 1
bound (sampled least) = least
bound (measuring least rest) = least

-- The task has yet to look at the thread.
abbrev pub is_unseen : Task → ℕ → Bool
is_unseen idle t = true
is_unseen (waiting old purpose) t = true
is_unseen (polling old purpose rest) t = has t rest
is_unseen (sampled least) t = true
is_unseen (measuring least rest) t = has t rest

pub record StateOk (s : Domain) : Type 0 where
  pub inside : (t o : ℕ) → s.epoch t ≡ 0 → s.holds t o ≡ false
  pub alive : (t o : ℕ) → s.holds t o ≡ true → s.reclaimed o ≡ false
  pub reachable : (o : ℕ) → s.linked o ≡ true → s.reclaimed o ≡ false
  pub past : (t : ℕ) → s.epoch t ≤ s.global
  pub loads : (t e : ℕ) → s.loaded t ≡ some e → (e ≤ s.global) × (s.epoch t ≡ 0)
  pub bounds : (w : ℕ) → bound (s.task w) ≤ s.global
  pub registered : (t : ℕ) → has t s.threads ≡ false → s.epoch t ≡ 0

pub record NodeOk (s : Domain) (n : RetiredNode) : Type 0 where
  pub unlinked : s.linked n.object ≡ false
  pub entered : (t : ℕ) → s.holds t n.object ≡ true → s.epoch t ≤ n.epoch
  pub seen :
      (w t : ℕ)
      → is_unseen (s.task w) t ≡ false
      → s.holds t n.object ≡ true
      → bound (s.task w) ≤ n.epoch

pub record Inv (s : Domain) : Type 0 where
  pub state : StateOk s
  pub shared : All (NodeOk s) s.retired
  pub local : (t : ℕ) → All (NodeOk s) (s.batch t)

pub All-map :
    {P Q : RetiredNode → Type 0} (ns : List RetiredNode)
    → ((n : RetiredNode) → P n → Q n)
    → All P ns
    → All Q ns
All-map [] f h = tt
All-map (n ∷ ns) f h = (f n h.0, All-map ns f h.1)

pub put-All :
    (P : RetiredNode → Type 0) (batch : ℕ → List RetiredNode) (t : ℕ) (ns : List RetiredNode)
    (u : ℕ)
    → All P ns
    → All P (batch u)
    → All P (put batch t ns u)
put-All P batch t ns u h k = elim (Bool-cases (u == t)) [
  | inl hit ↦ rw hit h
  | inr miss ↦ rw miss k
]

-- A change of the state that moves no node.
pub carry :
    (s t : Domain)
    → Inv s
    → t.retired ≡ s.retired
    → t.batch ≡ s.batch
    → StateOk t
    → ((n : RetiredNode) → NodeOk s n → NodeOk t n)
    → Inv t
carry s t i e f state step = record {
  state = state;
  shared = subst (λ ns. All (NodeOk t) ns) (sym e) (All-map s.retired step i.shared);
  local = λ u. subst (λ b. All (NodeOk t) (b u)) (sym f) (All-map (s.batch u) step (i.local u));
}

-- A task that gets a smaller claim, or one that it is entitled to.
pub retask :
    (s : Domain) (w : ℕ) (task : Task)
    → Inv s
    → bound task ≤ s.global
    → ((n : RetiredNode)
        → NodeOk s n
        → (t : ℕ) → is_unseen task t ≡ false
        → s.holds t n.object ≡ true
        → bound task ≤ n.epoch)
    → Inv (record s { task = put s.task w task })
retask s w task i low claim =
    carry s (record s { task = put s.task w task }) i refl refl
      (record {
        inside = i.state.inside;
        alive = i.state.alive;
        reachable = i.state.reachable;
        past = i.state.past;
        loads = i.state.loads;
        bounds = λ v. elim (Bool-cases (v == w)) [
          | inl hit ↦ rw hit low
          | inr miss ↦ rw miss (i.state.bounds v)
        ];
        registered = i.state.registered;
      })
      (λ n ok. record {
        unlinked = ok.unlinked;
        entered = ok.entered;
        seen = λ v t unseen held. elim (Bool-cases (v == w)) [
          | inl hit ↦ rw hit (claim n ok t (rw hit at unseen) held)
          | inr miss ↦ rw miss (ok.seen v t (rw miss at unseen) held)
        ];
      })
