-- ===== src/Rcu/Collector.antt =====
-- The collector reclaims nothing that a reader holds.
use abix.Prelude.{
  ℕ, ◌≤◌, ◌<◌, ◌≡◌, refl, sym, subst, arith, Bool, true, false, not, ◌&&◌, ◌||◌, ◌==◌, List, [],
  ◌∷◌, All, Bool-cases, inl, inr,
}
use abix.Rcu.Domain.{ReclaimClass, RetiredNode, Task, Domain, has, is_due, kept, freed, sweep}
use abix.Rcu.Invariant.{bound, is_unseen, NodeOk, Inv, All-map}

pub kept-All :
    (P : RetiredNode → Type 0) (safe : ℕ) (cls : ReclaimClass) (ns : List RetiredNode)
    → All P ns
    → All P (kept safe cls ns)
unfolding kept
kept-All P safe cls [] h = tt
kept-All P safe cls (n ∷ ns) h =
    let rest = kept-All P safe cls ns h.1 in
    elim (Bool-cases (is_due safe cls n)) [
      | inl due ↦ rw due rest
      | inr early ↦ rw early (h.0, rest)
    ]

-- What is freed was the object of a node that was due.
freed-has :
    (P : RetiredNode → Type 0) (Q : ℕ → Type 0) (safe : ℕ) (cls : ReclaimClass)
    (ns : List RetiredNode)
    → All P ns
    → ((n : RetiredNode) → P n → n.epoch ≤ safe → Q n.object)
    → (o : ℕ) → has o (freed safe cls ns) ≡ true
    → Q o
unfolding freed
freed-has P Q safe cls [] h f o found = absurd (cc)
freed-has P Q safe cls (n ∷ ns) h f o found =
    let rest = freed-has P Q safe cls ns h.1 f o in
    elim (Bool-cases (is_due safe cls n && n.reclaim && not (n.object == 0))) [
      | inl due ↦ elim (Bool-cases (o == n.object)) [
        | inl hit ↦
            let same : o ≡ n.object = ground (arith, hit) in
            let past : n.epoch ≤ safe = ground (arith, due) in subst Q (sym same) (f n h.0 past)
        | inr miss ↦ rest (rw (due, miss) at found)
      ]
      | inr early ↦ rest (rw early at found)
    ]

not_true : (b : Bool) → (b ≡ true → ⊥) → b ≡ false
not_true true f = absurd (f refl)
not_true false f = refl

-- A task that has seen every thread, and a limit below its bound.
pub record Finished (s : Domain) (w safe : ℕ) (task : Task) : Type 0 where
  pub current : s.task w ≡ task
  pub everyone : (t : ℕ) → is_unseen task t ≡ false
  pub below : safe < bound task

unheld :
    (s : Domain) (w safe : ℕ) (task : Task)
    → Finished s w safe task
    → (n : RetiredNode) → NodeOk s n
    → n.epoch ≤ safe
    → (t : ℕ) → s.holds t n.object ≡ false
unheld s w safe task f n ok past t = not_true (s.holds t n.object) (λ held.
    let unseen = subst (λ k. is_unseen k t ≡ false) (sym f.current) (f.everyone t) in
    let enough : bound task ≤ n.epoch =
      subst (λ k. bound k ≤ n.epoch) f.current (ok.seen w t unseen held) in
    absurd (omega (arith, enough, past, f.below)))

pub sweep-Inv :
    (s : Domain) (w safe : ℕ) (task : Task) (cls : ReclaimClass)
    → Finished s w safe task
    → Inv s
    → Inv (sweep safe cls s)
unfolding sweep
sweep-Inv s w safe task cls f i = record {
  state = record {
    inside = i.state.inside;
    alive = λ t o held.
        spared o (i.state.alive t o held) (λ gone. clash t o held (free_of_readers o gone t));
    reachable = λ o linked.
        spared o (i.state.reachable o linked)
          (λ gone. linked_clash o linked (free_of_links o gone));
    past = i.state.past;
    loads = i.state.loads;
    bounds = i.state.bounds;
    registered = i.state.registered;
  };
  shared = All-map (kept safe cls s.retired) same (kept-All (NodeOk s) safe cls s.retired i.shared);
  local = λ t. All-map (s.batch t) same (i.local t);
}
  where
    free_of_readers :
        (o : ℕ) → has o (freed safe cls s.retired) ≡ true → (t : ℕ) → s.holds t o ≡ false
    free_of_readers o gone =
        freed-has (NodeOk s) (λ x. (t : ℕ) → s.holds t x ≡ false) safe cls s.retired i.shared
          (unheld s w safe task f) o gone

    free_of_links : (o : ℕ) → has o (freed safe cls s.retired) ≡ true → s.linked o ≡ false
    free_of_links o gone =
        freed-has (NodeOk s) (λ x. s.linked x ≡ false) safe cls s.retired i.shared
          (λ n ok past. ok.unlinked) o gone

    clash : (t o : ℕ) → s.holds t o ≡ true → s.holds t o ≡ false → ⊥
    clash t o a b = absurd (cc)

    linked_clash : (o : ℕ) → s.linked o ≡ true → s.linked o ≡ false → ⊥
    linked_clash o a b = absurd (cc)

    spared :
        (o : ℕ)
        → s.reclaimed o ≡ false
        → (has o (freed safe cls s.retired) ≡ true → ⊥)
        → (s.reclaimed o || has o (freed safe cls s.retired)) ≡ false
    spared o a b = rw (a, not_true (has o (freed safe cls s.retired)) b) refl

    same :
        (n : RetiredNode)
        → NodeOk s n
        → NodeOk
            (record s {
              retired = kept safe cls s.retired;
              reclaimed = λ o. s.reclaimed o || has o (freed safe cls s.retired);
            })
            n
    same n ok = record { unlinked = ok.unlinked; entered = ok.entered; seen = ok.seen }
