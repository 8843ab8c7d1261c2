-- ===== src/Rcu/Advance.antt =====
-- The first locked section of an advancement keeps the invariant.
use abix.Prelude.{ℕ, ◌+◌, ◌^◌, ◌<◌, ◌≡◌, refl, arith, true, false, ◌==◌, ltb, Bool-cases, inl, inr}
use abix.Rcu.Domain.{
  ReclaimClass, batched, eager, Purpose, one_class, both_classes, Domain, publish_local_batch,
  advance, begin_advance, begin_synchronize,
}
use abix.Rcu.Invariant.{Inv, carry}
use abix.Rcu.Writers.{publish_local_batch-Inv}

advance-Inv :
    (s : Domain) (w : ℕ) (purpose : Purpose)
    → s.global + 1 < 2 ^ 64
    → Inv s
    → Inv (advance w purpose s)
unfolding advance
advance-Inv s w purpose low i =
    carry s _ i refl refl
      (record {
        inside = i.state.inside;
        alive = i.state.alive;
        reachable = i.state.reachable;
        past = λ t. omega (arith, low, i.state.past t);
        loads = λ t e h. let (past, out) = i.state.loads t e h in (omega (arith, low, past), out);
        bounds = λ v. elim (Bool-cases (v == w)) [
          | inl hit ↦ rw hit (omega (arith, low))
          | inr miss ↦ rw miss (omega (arith, low, i.state.bounds v))
        ];
        registered = i.state.registered;
      })
      (λ n ok. record {
        unlinked = ok.unlinked;
        entered = ok.entered;
        seen = λ v t unseen held. elim (Bool-cases (v == w)) [
          | inl hit ↦ absurd (true_false (rw hit at unseen))
          | inr miss ↦ rw miss (ok.seen v t (rw miss at unseen) held)
        ];
      })
  where
    true_false : true ≡ false → ⊥
    true_false e = absurd (cc)

counted-Inv : (s : Domain) (count : ℕ) → Inv s → Inv (record s { sync_count = count })
counted-Inv s count i =
    carry s _ i refl refl
      (record {
        inside = i.state.inside;
        alive = i.state.alive;
        reachable = i.state.reachable;
        past = i.state.past;
        loads = i.state.loads;
        bounds = i.state.bounds;
        registered = i.state.registered;
      })
      (λ n ok. record { unlinked = ok.unlinked; entered = ok.entered; seen = ok.seen })

pub begin_advance-Inv :
    (s : Domain) (w : ℕ) → s.global + 1 < 2 ^ 64 → Inv s → Inv (begin_advance w s)
unfolding begin_advance publish_local_batch
begin_advance-Inv s w low i = elim (Bool-cases (s.sync == 0)) [
  | inl free ↦
      rw free
        (advance-Inv (publish_local_batch w s) w both_classes low (publish_local_batch-Inv s w i))
  | inr taken ↦ rw taken (publish_local_batch-Inv s w i)
]

pub begin_synchronize-Inv :
    (s : Domain) (w : ℕ) (cls : ReclaimClass)
    → s.global + 1 < 2 ^ 64
    → Inv s
    → Inv (begin_synchronize w cls s)
unfolding begin_synchronize publish_local_batch
begin_synchronize-Inv s w eager low i = elim (Bool-cases (s.sync == 0)) [
  | inl free ↦ rw free (
      advance-Inv (publish_local_batch w s) w (one_class eager) low (publish_local_batch-Inv s w i))
  | inr taken ↦ rw taken (publish_local_batch-Inv s w i)
]
begin_synchronize-Inv s w batched low i = elim (Bool-cases (s.sync == 0)) [
  | inl free ↦ elim (Bool-cases (ltb (s.sync_count + 1) 8)) [
    | inl early ↦
        rw (free, early)
          (counted-Inv (publish_local_batch w s) (s.sync_count + 1) (publish_local_batch-Inv s w i))
    | inr due ↦
        rw (free, due)
          (advance-Inv (record (publish_local_batch w s) { sync_count = 0 }) w (one_class batched)
            low (counted-Inv (publish_local_batch w s) 0 (publish_local_batch-Inv s w i)))
  ]
  | inr taken ↦ rw taken (publish_local_batch-Inv s w i)
]
