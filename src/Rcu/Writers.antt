-- ===== src/Rcu/Writers.antt =====
-- The steps of a client's pointers, of the retired lists and of an advancement keep the invariant.
use abix.Prelude.{
  ℕ, ◌≡◌, ◌≢◌, refl, sym, subst, arith, Bool, true, false, ◌==◌, leb, List, [], ◌∷◌, ◌++◌, length,
  All-append, Bool-cases, inl, inr, ◌⊎◌,
}
use abix.Rcu.Domain.{
  ReclaimClass, RetiredNode, Domain, put, publish_local_batch, queue, retire_impl,
}
use abix.Rcu.Invariant.{StateOk, NodeOk, Inv, put-All, All-map, carry}

impossible : false ≡ true → ⊥
impossible e = absurd (cc)

-- What a reader holds after it reads an object: that object, or what it held.
held-cases :
    (holds : ℕ → ℕ → Bool) (t o u x : ℕ)
    → put holds t (put (holds t) o true) u x ≡ true
    → ((u ≡ t) × (x ≡ o)) ⊎ (holds u x ≡ true)
held-cases holds t o u x h = elim (Bool-cases (u == t)) [
  | inl thread ↦ elim (Bool-cases (x == o)) [
    | inl object ↦ inl (ground (arith, thread), ground (arith, object))
    | inr other ↦
        let same : u ≡ t = ground (arith, thread) in
        inr (subst (λ v. holds v x ≡ true) (sym same) (rw (thread, other) at h))
  ]
  | inr other ↦ inr (rw other at h)
]

pub read-Inv :
    (s : Domain) (t o : ℕ)
    → s.epoch t ≢ 0
    → s.linked o ≡ true
    → Inv s
    → Inv (record s { holds = put s.holds t (put (s.holds t) o true) })
read-Inv s t o within reachable i =
    carry s _ i refl refl
      (record {
        inside = λ u x zeroed. elim (Bool-cases (put s.holds t (put (s.holds t) o true) u x)) [
          | inl held ↦ elim (held-cases s.holds t o u x held) [
            | inl (same, _) ↦ absurd (within (subst (λ v. s.epoch v ≡ 0) same zeroed))
            | inr before ↦ absurd (clash u x (i.state.inside u x zeroed) before)
          ]
          | inr free ↦ free
        ];
        alive = λ u x held. elim (held-cases s.holds t o u x held) [
          | inl (_, same) ↦
              subst (λ y. s.reclaimed y ≡ false) (sym same) (i.state.reachable o reachable)
          | inr before ↦ i.state.alive u x before
        ];
        reachable = i.state.reachable;
        past = i.state.past;
        loads = i.state.loads;
        bounds = i.state.bounds;
        registered = i.state.registered;
      })
      (λ n ok. record {
        unlinked = ok.unlinked;
        entered = λ u held. ok.entered u (known u n ok held);
        seen = λ w u unseen held. ok.seen w u unseen (known u n ok held);
      })
  where
    clash : (u x : ℕ) → s.holds u x ≡ false → s.holds u x ≡ true → ⊥
    clash u x a b = absurd (cc)

    linked_clash : (x : ℕ) → s.linked x ≡ false → x ≡ o → ⊥
    linked_clash x a e = let b = subst (λ y. s.linked y ≡ true) (sym e) reachable in absurd (cc)

    known :
        (u : ℕ) (n : RetiredNode)
        → NodeOk s n
        → put s.holds t (put (s.holds t) o true) u n.object ≡ true
        → s.holds u n.object ≡ true
    known u n ok held = elim (held-cases s.holds t o u n.object held) [
      | inl (_, same) ↦ absurd (linked_clash n.object ok.unlinked same)
      | inr before ↦ before
    ]

pub unlink-Inv : (s : Domain) (o : ℕ) → Inv s → Inv (record s { linked = put s.linked o false })
unlink-Inv s o i =
    carry s _ i refl refl
      (record {
        inside = i.state.inside;
        alive = i.state.alive;
        reachable = λ x h. elim (Bool-cases (x == o)) [
          | inl hit ↦ absurd (impossible (rw hit at h))
          | inr miss ↦ i.state.reachable x (rw miss at h)
        ];
        past = i.state.past;
        loads = i.state.loads;
        bounds = i.state.bounds;
        registered = i.state.registered;
      })
      (λ n ok. record {
        unlinked = elim (Bool-cases (n.object == o)) [
          | inl hit ↦ rw hit refl
          | inr miss ↦ rw miss ok.unlinked
        ];
        entered = ok.entered;
        seen = ok.seen;
      })

-- The state's part does not look at the lists.
moved :
    (s : Domain) (retired : List RetiredNode) (batch : ℕ → List RetiredNode)
    → StateOk s
    → StateOk (record s { retired = retired; batch = batch })
moved s retired batch ok = record {
  inside = ok.inside;
  alive = ok.alive;
  reachable = ok.reachable;
  past = ok.past;
  loads = ok.loads;
  bounds = ok.bounds;
  registered = ok.registered;
}

same_node :
    (s : Domain) (retired : List RetiredNode) (batch : ℕ → List RetiredNode) (n : RetiredNode)
    → NodeOk s n
    → NodeOk (record s { retired = retired; batch = batch }) n
same_node s retired batch n ok = record {
  unlinked = ok.unlinked;
  entered = ok.entered;
  seen = ok.seen;
}

pub publish_local_batch-Inv : (s : Domain) (t : ℕ) → Inv s → Inv (publish_local_batch t s)
unfolding publish_local_batch
publish_local_batch-Inv s t i = record {
  state = moved s (s.batch t ++ s.retired) (put s.batch t []) i.state;
  shared =
      All-map (s.batch t ++ s.retired) (same_node s _ _)
        (All-append (NodeOk s) (s.batch t) s.retired (i.local t) i.shared);
  local =
      λ u. put-All (NodeOk _) s.batch t [] u tt (All-map (s.batch u) (same_node s _ _) (i.local u));
}

-- A node gets the global epoch, which no reader and no task is ahead of.
queue-Inv :
    (s : Domain) (t : ℕ) (n : RetiredNode)
    → s.linked n.object ≡ false
    → n.epoch ≡ s.global
    → Inv s
    → Inv (queue t n s)
unfolding queue
queue-Inv s t n gone now i = record {
  state = moved s s.retired (put s.batch t (s.batch t ++ n ∷ [])) i.state;
  shared = All-map s.retired (same_node s _ _) i.shared;
  local = λ u.
      put-All (NodeOk _) s.batch t (s.batch t ++ n ∷ []) u
        (All-append (NodeOk _) (s.batch t) (n ∷ [])
          (All-map (s.batch t) (same_node s _ _) (i.local t)) (fresh, tt))
        (All-map (s.batch u) (same_node s _ _) (i.local u));
}
  where
    fresh : NodeOk (record s { retired = s.retired; batch = put s.batch t (s.batch t ++ n ∷ []) }) n
    fresh = record {
      unlinked = gone;
      entered = λ u held. omega (arith, now, i.state.past u);
      seen = λ w u unseen held. omega (arith, now, i.state.bounds w);
    }

pub retire_impl-Inv :
    (s : Domain) (t o : ℕ) (reclaim : Bool) (cls : ReclaimClass) (allocated : Bool)
    → s.linked o ≡ false
    → Inv s
    → Inv ((retire_impl t o reclaim cls allocated s).1)
unfolding retire_impl
retire_impl-Inv s t o reclaim cls false gone i = i
retire_impl-Inv s t o reclaim cls true gone i =
    let node : RetiredNode = record {
      object = o;
      epoch = s.global;
      reclaim = reclaim;
      cls = cls;
    } in
    let queued = queue-Inv s t node gone refl i in
    elim (Bool-cases (leb 64 (length ((queue t node s).batch t)))) [
      | inl full ↦ rw full (publish_local_batch-Inv (queue t node s) t queued)
      | inr room ↦ rw room queued
    ]
