-- ===== src/Interface/ModuleRegistry/Binding.antt =====
-- include/SKL/ABIX/Interface/ModuleRegistry.h, bind_interface: a bound interface and the lease behind it.
use abix.Prelude.{
  ℕ, zero, suc, ◌≡◌, refl, sym, subst, ap, ◌∙◌, ◌≢◌, List, [], ◌∷◌, arith, Bool, true, false, ◌==◌,
  if◌then◌else◌, Option, none, some,
}
use abix.Interface.Ref.{InterfaceRef, reset, resolve_methods}
use abix.Interface.Lease.{
  ModuleState, active, loading, draining, unloaded, ModuleControl, begin_unload, begin_unload_state,
  add_lease, Thread, outside, holding, Steps, stay, next, enter, count, grant,
}
use abix.Interface.Lease.Draining.{Counts, Released, Steps-Counts, total-Released}
use abix.Interface.ModuleRegistry.{
  ModuleInterface, ModuleStatus, ModuleSlot, ModuleRegistry, Loader, put, find_slot, wait_for_idle,
  unload, unregister_module,
}
use abix.Interface.ModuleRegistry.Unload.{unregister_module-unload}

-- try_acquire_lease, run with no action of another thread in between.
unfoldable pub try_acquire_lease : ModuleControl → Bool × ModuleControl
try_acquire_lease control = elim control.state [
  | active ↦ (true, add_lease control)
  | _ ↦ (false, control)
]

pub record BoundInterface : Type 0 where
  pub ref : InterfaceRef
  -- the control block of the lease
  pub lease : Option ℕ

unfoldable pub bind_interface : ℕ → Loader → ModuleInterface → Option ℕ → BoundInterface × Loader
bind_interface max_methods l m object = elim m.control [
  | none ↦ (record { ref = reset max_methods; lease = none }, l)
  | some c ↦
      let (held, control) = try_acquire_lease (l.controls c) in
      let (status, ref) =
        resolve_methods max_methods m.interface_id m.version m.methods m.method_count object in
      if held
      then (record { ref = ref; lease = some c }, record l { controls = put l.controls c control })
      else (record { ref = reset max_methods; lease = none }, l)
]

busy_at : (n : ℕ) → n ≢ 0 → (n == 0) ≡ false
busy_at zero h = absurd (h refl)
busy_at (suc n) h = ground arith

leased-wait_for_idle :
    (seen : ℕ → ℕ) (spins : ℕ) → ((i : ℕ) → seen i ≢ 0) → wait_for_idle seen spins ≡ false
unfolding wait_for_idle
leased-wait_for_idle seen zero h = busy_at (seen 0) (h 0)
leased-wait_for_idle seen (suc spins) h =
    rw (busy_at (seen 0) (h 0), leased-wait_for_idle (λ i. seen (suc i)) spins (λ i. h (suc i)))
      refl

put-same : {A : Type 0} (f : ℕ → A) (k : ℕ) (v : A) → put f k v k ≡ v
put-same f k v = let same : (k == k) ≡ true = ground arith in rw same refl

try_acquire_lease-active :
    (control : ModuleControl)
    → control.state ≡ active
    → try_acquire_lease control ≡ (true, add_lease control)
unfolding try_acquire_lease
try_acquire_lease-active control running =
    ap (λ (s : ModuleState). elim s [ active ↦ (true, add_lease control) | _ ↦ (false, control) ])
      running

-- The loader after a lease was taken.
abbrev leased_by : Loader → ℕ → Loader
leased_by l c = record l { controls = put l.controls c (add_lease (l.controls c)) }

bind_interface-active :
    (max_methods : ℕ) (l : Loader) (m : ModuleInterface) (object : Option ℕ) (c : ℕ)
    → m.control ≡ some c
    → (l.controls c).state ≡ active
    → (ref : InterfaceRef) × (bind_interface max_methods l m object
        ≡ (record { ref = ref; lease = some c }, leased_by l c))
unfolding bind_interface
bind_interface-active max_methods l m object c at running =
    let taken = try_acquire_lease-active (l.controls c) running in
    (
      (resolve_methods max_methods m.interface_id m.version m.methods m.method_count object).1,
      rw (bind_interface, at, taken) refl,
    )

-- Draining or further, or not yet active.
closed_after : (state : ModuleState) → (begin_unload_state state).1 ≢ active
unfolding begin_unload_state
closed_after loading e = cc
closed_after active e = cc
closed_after draining e = cc
closed_after unloaded e = cc

unload-leased :
    (seen : ℕ → ℕ) (spins : ℕ) (r : ModuleRegistry) (l : Loader) (index c : ℕ) (slot : ModuleSlot)
    → ((i : ℕ) → seen i ≢ 0)
    → unload seen spins r l index slot (some c) ≡ (
      ModuleStatus.busy,
      r,
      record l { controls = put l.controls c (begin_unload (l.controls c)).1 },
    )
unfolding unload
unload-leased seen spins r l index c slot h = rw (leased-wait_for_idle seen spins h) refl

-- The three actions of try_acquire_lease on a module that is active.
acquired-Counts :
    (control : ModuleControl) (others : List Thread)
    → control.state ≡ active
    → Counts (control, outside ∷ others)
    → Counts (add_lease control, holding ∷ others)
unfolding add_lease
acquired-Counts control others running counts =
    Steps-Counts (control, outside ∷ others) (add_lease control, holding ∷ others)
      (next _ _ _ (enter control [] others running) (
        next _ _ _ (count control [] others)
          (next _ _ _ (grant (add_lease control) [] others running) (stay _))))
      counts

-- A count of 0 leaves no thread with a lease.
held-count :
    (control : ModuleControl) (threads rest : List Thread)
    → Counts (control, threads)
    → threads ≡ holding ∷ rest
    → control.leases ≢ 0
held-count control threads rest (n, few) held zero_ =
    let released = total-Released threads (sym n ∙ zero_) in
    (subst (λ ts. Released ts) held released).0 refl

-- A bound interface on an active module: the binding has the lease. From then on, other threads may take and
-- release leases at any time and the loader may act, and someone calls unregister_module, whose loads of the
-- count see states that the threads and the loader then bring about. If the lease of the binding is held in
-- each of these, the module is not unregistered: the answer is busy, the registry stays as it is, and the
-- module admits no further lease.
pub bind_interface-unregister_module :
    (max_methods spins : ℕ) (r : ModuleRegistry) (l later : Loader) (m : ModuleInterface)
    (object : Option ℕ) (id c index : ℕ) (slot : ModuleSlot) (others : List Thread)
    (now : ModuleControl × List Thread) (states : ℕ → ModuleControl × List Thread)
    (rest : ℕ → List Thread)
    → m.control ≡ some c
    → (l.controls c).state ≡ active
    → Counts (l.controls c, outside ∷ others)
    → Steps ((bind_interface max_methods l m object).1.controls c, holding ∷ others) now
    → later.controls c ≡ now.0
    → find_slot later.ids id 0 r.slots ≡ some (index, slot)
    → slot.control ≡ some c
    → ((i : ℕ) → Steps ((begin_unload now.0).1, now.1) (states i))
    → ((i : ℕ) → (states i).1 ≡ holding ∷ rest i)
    → let (status, after, loader) = unregister_module (λ i. (states i).0.leases) spins r later id in
      ((bind_interface max_methods l m object).0.lease ≡ some c)
      × (status ≡ ModuleStatus.busy)
      × (after ≡ r)
      × ((loader.controls c).state ≢ active)
unfolding begin_unload
bind_interface-unregister_module max_methods spins r l later m object id c index slot others now
      states rest control running counts before at found owner run held =
    let (ref, bound) = bind_interface-active max_methods l m object c control running in
    let start : (bind_interface max_methods l m object).1.controls c ≡ add_lease (l.controls c) =
      rw bound (put-same l.controls c (add_lease (l.controls c))) in
    let counted = acquired-Counts (l.controls c) others running counts in
    let at_now =
      Steps-Counts _ now before (subst (λ k. Counts (k, holding ∷ others)) (sym start) counted) in
    let seen : (i : ℕ) → (states i).0.leases ≢ 0 = λ i.
      held-count (states i).0 (states i).1 (rest i)
        (Steps-Counts ((begin_unload now.0).1, now.1) (states i) (run i) at_now) (held i) in
    let refused =
      unregister_module-unload (λ i. (states i).0.leases) spins r later id c index slot found owner
      ∙ unload-leased (λ i. (states i).0.leases) spins r later index c slot seen in
    let shut : (put later.controls c ((begin_unload (later.controls c)).1) c).state ≢ active =
      subst (λ (k : ModuleControl). k.state ≢ active)
        (sym (put-same later.controls c ((begin_unload (later.controls c)).1)))
        (closed_after (later.controls c).state) in
    rw (bound, refused) (refl, refl, refl, shut)
