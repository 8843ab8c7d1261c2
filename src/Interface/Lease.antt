-- ===== src/Interface/Lease.antt =====
-- include/SKL/ABIX/Interface/Lease.h: the lifecycle of a module and its leases, with the threads that
-- take and release them. The hooks `pin` and `unpin` are the loader's and touch neither field.
pub mod Draining
use abix.Prelude.{ℕ, ◌+◌, ◌-◌, ◌%◌, ◌^◌, ◌≡◌, ◌≢◌, Bool, true, false, List, [], ◌∷◌, ◌++◌}

pub data ModuleState : Type 0 where
  loading active draining unloaded : ModuleState

pub record ModuleControl : Type 0 where
  pub state : ModuleState
  pub leases : ℕ

-- The compare-exchange from `loading` to `active`.
unfoldable pub activate_state : ModuleState → Bool × ModuleState
activate_state loading = (true, active)
activate_state state = (false, state)

unfoldable pub activate_module : ModuleControl → Bool × ModuleControl
activate_module control =
    let (done, state) = activate_state control.state in (done, record control { state = state })

-- The loop ends at the state that its last load saw; a failed exchange loads again.
unfoldable pub begin_unload_state : ModuleState → Bool × ModuleState
begin_unload_state draining = (true, draining)
begin_unload_state unloaded = (true, unloaded)
begin_unload_state loading = (false, loading)
begin_unload_state active = (true, draining)

unfoldable pub begin_unload : ModuleControl → Bool × ModuleControl
begin_unload control =
    let (done, state) = begin_unload_state control.state in (done, record control { state = state })

unfoldable pub mark_unloaded : ModuleControl → ModuleControl
mark_unloaded control = record control { state = unloaded }

-- `leases.fetch_add(1)` and `leases.fetch_sub(1)`, on 32 bits.
unfoldable pub add_lease : ModuleControl → ModuleControl
add_lease control = record control { leases = (control.leases + 1) % 2 ^ 32 }

unfoldable pub sub_lease : ModuleControl → ModuleControl
sub_lease control = record control { leases = (control.leases + (2 ^ 32 - 1)) % 2 ^ 32 }

-- A thread in `try_acquire_lease`: before it, after its first load, after the increment, after the
-- second load, and with the lease.
pub data Thread : Type 0 where
  outside entered counted refused holding : Thread

-- One atomic action of one thread, or of the loader.
pub data Step : ModuleControl × List Thread → ModuleControl × List Thread → Type 0 where
  enter :
      (c : ModuleControl) (before after : List Thread)
      → c.state ≡ active
      → Step (c, before ++ outside ∷ after) (c, before ++ entered ∷ after)
  count :
      (c : ModuleControl) (before after : List Thread)
      → Step (c, before ++ entered ∷ after) (add_lease c, before ++ counted ∷ after)
  grant :
      (c : ModuleControl) (before after : List Thread)
      → c.state ≡ active
      → Step (c, before ++ counted ∷ after) (c, before ++ holding ∷ after)
  refuse :
      (c : ModuleControl) (before after : List Thread)
      → c.state ≢ active
      → Step (c, before ++ counted ∷ after) (c, before ++ refused ∷ after)
  undo :
      (c : ModuleControl) (before after : List Thread)
      → Step (c, before ++ refused ∷ after) (sub_lease c, before ++ outside ∷ after)
  release :
      (c : ModuleControl) (before after : List Thread)
      → Step (c, before ++ holding ∷ after) (sub_lease c, before ++ outside ∷ after)
  activate : (c : ModuleControl) (ts : List Thread) → Step (c, ts) ((activate_module c).1, ts)
  unload : (c : ModuleControl) (ts : List Thread) → Step (c, ts) ((begin_unload c).1, ts)
  mark : (c : ModuleControl) (ts : List Thread) → Step (c, ts) (mark_unloaded c, ts)

pub data Steps : ModuleControl × List Thread → ModuleControl × List Thread → Type 0 where
  stay : (s : ModuleControl × List Thread) → Steps s s
  next : (s t u : ModuleControl × List Thread) → Step s t → Steps t u → Steps s u
