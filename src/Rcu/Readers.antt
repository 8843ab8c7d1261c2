-- ===== src/Rcu/Readers.antt =====
-- The steps of the readers and of the retiring thread keep the invariant.
use abix.Prelude.{
  ℕ, ◌≡◌, refl, sym, subst, arith, true, false, ◌==◌, Option, none, some, Bool-cases, inl, inr,
}
use abix.Rcu.Domain.{Domain, put, has, register_thread, enter_load, enter_store, exit}
use abix.Rcu.Invariant.{Inv, carry}

pub register_thread-Inv : (s : Domain) (t : ℕ) → Inv s → Inv (register_thread t s)
unfolding register_thread
register_thread-Inv s t i =
    carry s _ i refl refl
      (record {
        inside = i.state.inside;
        alive = i.state.alive;
        reachable = i.state.reachable;
        past = i.state.past;
        loads = i.state.loads;
        bounds = i.state.bounds;
        registered = λ u absent. i.state.registered u (ground (arith, absent));
      })
      (λ n ok. record { unlinked = ok.unlinked; entered = ok.entered; seen = ok.seen })

some-some : {a b : ℕ} → ◌≡◌ {A = Option ℕ} (some a) (some b) → a ≡ b
some-some e = cc

pub enter_load-Inv : (s : Domain) (t : ℕ) → s.epoch t ≡ 0 → Inv s → Inv (enter_load t s)
unfolding enter_load
enter_load-Inv s t out i =
    carry s _ i refl refl
      (record {
        inside = i.state.inside;
        alive = i.state.alive;
        reachable = i.state.reachable;
        past = i.state.past;
        loads = λ u e h. elim (Bool-cases (u == t)) [
          | inl hit ↦
              let same : u ≡ t = ground (arith, hit) in
              let e' : s.global ≡ e = some-some (rw hit at h) in
              (omega (arith, e'), subst (λ v. s.epoch v ≡ 0) (sym same) out)
          | inr miss ↦ i.state.loads u e (rw miss at h)
        ];
        bounds = i.state.bounds;
        registered = i.state.registered;
      })
      (λ n ok. record { unlinked = ok.unlinked; entered = ok.entered; seen = ok.seen })

pub enter_store-Inv :
    (s : Domain) (t e : ℕ)
    → s.loaded t ≡ some e
    → has t s.threads ≡ true
    → Inv s
    → Inv (enter_store t e s)
unfolding enter_store
enter_store-Inv s t e found known i =
    let (low, out) = i.state.loads t e found in
    carry s _ i refl refl
      (record {
        inside = λ u o zeroed. elim (Bool-cases (u == t)) [
          | inl hit ↦ at_thread u hit (λ v. s.holds v o ≡ false) (i.state.inside t o out)
          | inr miss ↦ i.state.inside u o (rw miss at zeroed)
        ];
        alive = i.state.alive;
        reachable = i.state.reachable;
        past = λ u. elim (Bool-cases (u == t)) [
          | inl hit ↦ rw hit low
          | inr miss ↦ rw miss (i.state.past u)
        ];
        loads = λ u x h. elim (Bool-cases (u == t)) [
          | inl hit ↦ absurd (nothing x (rw hit at h))
          | inr miss ↦ rw miss (i.state.loads u x (rw miss at h))
        ];
        bounds = i.state.bounds;
        registered = λ u absent. elim (Bool-cases (u == t)) [
          | inl hit ↦ absurd (split u (at_thread u hit (λ v. has v s.threads ≡ true) known) absent)
          | inr miss ↦ rw miss (i.state.registered u absent)
        ];
      })
      (λ n ok. record {
        unlinked = ok.unlinked;
        entered = λ u held. elim (Bool-cases (u == t)) [
          | inl hit ↦ absurd (
              split_held u n.object
                (at_thread u hit (λ v. s.holds v n.object ≡ false) (i.state.inside t n.object out))
                held)
          | inr miss ↦ rw miss (ok.entered u held)
        ];
        seen = ok.seen;
      })
  where
    at_thread : (u : ℕ) → (u == t) ≡ true → (P : ℕ → Type 0) → P t → P u
    at_thread u hit P p = let same : u ≡ t = ground (arith, hit) in subst P (sym same) p

    nothing : (x : ℕ) → ◌≡◌ {A = Option ℕ} none (some x) → ⊥
    nothing x e = absurd (cc)

    split : (u : ℕ) → has u s.threads ≡ true → has u s.threads ≡ false → ⊥
    split u a b = absurd (cc)

    split_held : (u o : ℕ) → s.holds u o ≡ false → s.holds u o ≡ true → ⊥
    split_held u o a b = absurd (cc)

pub exit-Inv : (s : Domain) (t : ℕ) → Inv s → Inv (exit t s)
unfolding exit
exit-Inv s t i =
    carry s _ i refl refl
      (record {
        inside = λ u o zeroed. elim (Bool-cases (u == t)) [
          | inl hit ↦ rw hit refl
          | inr miss ↦ rw miss (i.state.inside u o (rw miss at zeroed))
        ];
        alive = λ u o held. i.state.alive u o (still u o held);
        reachable = i.state.reachable;
        past = λ u. elim (Bool-cases (u == t)) [
          | inl hit ↦ rw hit (omega arith)
          | inr miss ↦ rw miss (i.state.past u)
        ];
        loads = λ u e h. let (low, out) = i.state.loads u e h in (low, zeroed u out);
        bounds = i.state.bounds;
        registered = λ u absent. zeroed u (i.state.registered u absent);
      })
      (λ n ok. record {
        unlinked = ok.unlinked;
        entered = λ u held. elim (Bool-cases (u == t)) [
          | inl hit ↦ rw hit (omega arith)
          | inr miss ↦ rw miss (ok.entered u (rw miss at held))
        ];
        seen = λ w u unseen held. ok.seen w u unseen (still u n.object held);
      })
  where
    still : (u o : ℕ) → put s.holds t (λ x. false) u o ≡ true → s.holds u o ≡ true
    still u o held = elim (Bool-cases (u == t)) [
      | inl hit ↦ absurd (impossible (rw hit at held))
      | inr miss ↦ rw miss at held
    ]
      where
        impossible : false ≡ true → ⊥
        impossible e = absurd (cc)

    zeroed : (u : ℕ) → s.epoch u ≡ 0 → put s.epoch t 0 u ≡ 0
    zeroed u out = elim (Bool-cases (u == t)) [ inl hit ↦ rw hit refl | inr miss ↦ rw miss out ]
