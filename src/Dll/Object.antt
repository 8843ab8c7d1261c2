-- ===== src/Dll/Object.antt =====
-- include/SKL/ABIX/DLL/Object.h: loading, swapping and unloading a module. What the platform's loader, the
-- allocators and the writer lock answer is an argument of a call, and the epoch domain (RCU/Domain.h) is an
-- interface. A section under the writer lock is one action, and the log is left out.
pub mod Accounts
pub mod Fetch
pub mod Calls
pub mod Runs
pub mod Loads
use abix.Prelude.{
  ℕ, ◌+◌, ◌-◌, Bool, true, false, not, ◌&&◌, ◌||◌, ◌==◌, leb, ltb, if◌then◌else◌, List, [], ◌∷◌,
  Option, none, some, is_some, length,
}
use abix.Runtime.Search.{Table, HashIndex, table_magic, build}

pub data CallError : Type 0 where
  no_error not_loaded not_found sig_mismatch version_mismatch stale_handle table_changed invalid
        load_failed :
      CallError
  unloading lock_timeout : CallError

pub data ReclaimOutcome : Type 0 where
  not_attempted reclaimed deferred_batched deferred_timeout : ReclaimOutcome

pub data State : Type 0 where
  active retiring zombie : State

-- A module's handle is a number, and 0 is null.
pub record Image : Type 0 where
  pub handle : ℕ
  pub export_table : Option Table
  pub index : HashIndex

pub record Control : Type 0 where
  pub image : Option Image
  pub state : State
  pub reclaim_timeout_ms : ℕ
  pub last_reclaim : ReclaimOutcome

-- The operations of the epoch domain that an object calls, as an interface with no law.
pub record Domain (D : Type 0) : Type 0 where
  pub retire_eager : D → HashIndex → D
  pub retire_token : D → Image → ℕ × D
  pub synchronize : D → D
  pub synchronize_eager : D → D
  pub synchronize_until : D → ℕ → Bool × D
  pub reclaimed_through : D → ℕ → Bool

-- What the outside answers during one call: the handle of load_module, the table that the module's getter
-- returns, the allocations, and whether a bounded wait for the writer lock ends with the lock.
pub record Answers : Type 0 where
  pub handle : ℕ
  pub table : Option Table
  pub image_allocated : Bool
  pub slots_allocated : Bool
  pub locked : Bool

-- An object, the domain, and the modules that load_module opened and unload_module closed so far.
pub record World (D : Type 0) : Type 0 where
  pub control : Option Control
  pub strongs : ℕ
  pub path : Option (List ℕ)
  pub last_error : CallError
  pub domain : D
  pub opened : List ℕ
  pub closed : List ℕ

abbrev pub empty_index : HashIndex
empty_index = record { slots = none; capacity = 0; mask = 0 }

abbrev pub hash_threshold : ℕ
hash_threshold = 64

abbrev pub wrong_format : Table → Bool
wrong_format t = not (t.magic == table_magic) || not (t.format_version == 1)

abbrev pub is_wrong : Option Table → Bool
is_wrong none = false
is_wrong (some t) = wrong_format t

-- The index of a table from the threshold on; none where `build` does not end.
unfoldable pub index_for : Bool → Option Table → Option HashIndex
index_for allocated none = some empty_index
index_for allocated (some t) =
    let built = build allocated t in
    if leb hash_threshold (length t.entries) then built else some empty_index

abbrev pub lock_writer : Bool → Control → Answers → Bool
lock_writer bounded c a = if not bounded || c.reclaim_timeout_ms == 0 then true else a.locked

module _ {D : Type 0} where
  unfoldable pub unload_module : ℕ → World D → World D
  unload_module m w = if m == 0 then w else record w { closed = m ∷ w.closed }

  unfoldable pub load_image : Answers → World D → Option (Option Image × World D)
  load_image a w =
      let opened = record w { opened = a.handle ∷ w.opened } in
      let failed = unload_module a.handle opened in
      if a.handle == 0
      then some (none, w)
      else if is_wrong a.table
      then some (none, failed)
      else if not a.image_allocated
      then some (none, failed)
      else elim (index_for a.slots_allocated a.table) [
        | none ↦ none
        | some index ↦
            some
              (some (record { handle = a.handle; export_table = a.table; index = index }), opened)
      ]

  unfoldable pub discard_image : Image → World D → World D
  discard_image img w = unload_module img.handle w

  abbrev pub closed_image : Option Image → World D → World D
  closed_image none w = w
  closed_image (some img) w = unload_module img.handle w

  unfoldable pub force_from : Option Control → World D → World D
  force_from none w = w
  force_from (some c) w =
      closed_image c.image (record w { control = some (record c { image = none; state = zombie }) })

  unfoldable pub force_unload : World D → World D
  force_unload w = force_from w.control w

module _ {D : Type 0} (dom : Domain D) where
  -- The token of the retired image, whether a bounded wait was proven, and the domain.
  unfoldable pub grace_period : Bool → ℕ → Image → D → ℕ × (Bool × D)
  grace_period true timeout img d =
      let (token, retired) = dom.retire_token d img in
      (token, dom.synchronize_until retired timeout)
  grace_period false timeout img d =
      let (token, retired) = dom.retire_token (dom.synchronize_eager d) img in
      (token, (false, dom.synchronize retired))

  abbrev pub bounded_reclaim : Control → Bool
  bounded_reclaim c = not (c.reclaim_timeout_ms == 0)

  unfoldable pub outcome_of : Bool → Bool → Bool → ReclaimOutcome
  outcome_of true bounded proven = reclaimed
  outcome_of false bounded proven =
      if bounded && not proven then deferred_timeout else deferred_batched

  -- The outcome, and the domain.
  unfoldable pub retire_image : Control → Image → D → ReclaimOutcome × D
  retire_image c img d =
      let (token, (proven, after)) =
        grace_period (bounded_reclaim c) c.reclaim_timeout_ms img (dom.retire_eager d img.index) in
      (outcome_of (dom.reclaimed_through after token) (bounded_reclaim c) proven, after)

  -- What is done with the image that was swapped out.
  unfoldable pub retire_previous : Option Image → Control → World D → World D
  retire_previous none c w = record w { control = some c }
  retire_previous (some previous) c w =
      let (outcome, after) = retire_image c previous w.domain in
      record w { control = some (record c { last_reclaim = outcome }); domain = after }

  unfoldable pub swap_image : Option Image → State → Control → World D → World D
  swap_image image state c w = retire_previous c.image (record c { image = image; state = state }) w

  unfoldable pub publish_image : Answers → Option Image → State → Control → World D → Bool × World D
  publish_image a image state c w =
      if lock_writer true c a then (true, swap_image image state c w) else (false, w)

  -- The end of load and of reload, on the image that load_image gave.
  unfoldable pub finish_load :
      Answers → List ℕ → Control → Option Image → World D → Bool × CallError × World D
  finish_load a path c none w = (false, load_failed, w)
  finish_load a path c (some img) w =
      let published = publish_image a (some img) active c w in
      if published.0
      then (true, no_error, record published.1 { path = some path })
      else (false, lock_timeout, discard_image img w)

  -- `load`, and `reload`, which differs in what it logs; none where it does not end. Given the control.
  unfoldable pub load_into :
      Option Control → Answers → List ℕ → World D → Option (Bool × CallError × World D)
  load_into none a path w = some (false, load_failed, w)
  load_into (some c) a path w = elim (load_image a w) [
    | none ↦ none
    | some (image, after) ↦ some (finish_load a path c image after)
  ]

  unfoldable pub load : Answers → List ℕ → World D → Option (Bool × CallError × World D)
  load a path w = load_into w.control a path w

  unfoldable pub unload_from :
      Option Control → Bool → Answers → World D → Bool × CallError × World D
  unload_from none bounded a w = (false, no_error, w)
  unload_from (some c) bounded a w =
      if ltb 1 w.strongs
      then (false, stale_handle, w)
      else if not (lock_writer bounded c a)
      then (false, lock_timeout, w)
      else (true, no_error, swap_image none zombie c w)

  unfoldable pub unload_impl : Bool → Answers → World D → Bool × CallError × World D
  unload_impl bounded a w = unload_from w.control bounded a w

  -- When the last strong reference goes.
  unfoldable pub destroy_of : Option Control → World D → World D
  destroy_of none w = w
  destroy_of (some c) w = record (retire_previous c.image c w) { control = none }

  unfoldable pub destroy_control : World D → World D
  destroy_control w = destroy_of w.control w

  -- The forms that report through last_error.
  unfoldable pub reported : Bool × CallError × World D → Bool × World D
  reported (ok, error, w) = (ok, record w { last_error = error })

  unfoldable pub unload : Answers → World D → Bool × World D
  unload a w = reported (unload_impl true a w)

-- The accessors.
abbrev pub is_active : State → Bool
is_active active = true
is_active retiring = false
is_active zombie = false

module _ {D : Type 0} where
  unfoldable pub image_acquire : World D → Option Image
  image_acquire w = elim w.control [ none ↦ none | some c ↦ c.image ]

  unfoldable pub is_loaded : World D → Bool
  is_loaded w = elim w.control [ none ↦ false | some c ↦ is_active c.state && is_some c.image ]

  unfoldable pub get_table : World D → Option Table
  get_table w = elim (image_acquire w) [ none ↦ none | some img ↦ img.export_table ]

  unfoldable pub module_handle : World D → ℕ
  module_handle w = elim (image_acquire w) [ none ↦ 0 | some img ↦ img.handle ]

  unfoldable pub ref_count : World D → ℕ
  ref_count w = if ltb 0 w.strongs then w.strongs - 1 else 0

  unfoldable pub set_timeout_of : Option Control → ℕ → World D → World D
  set_timeout_of none ms w = w
  set_timeout_of (some c) ms w = record w { control = some (record c { reclaim_timeout_ms = ms }) }

  unfoldable pub set_reclaim_timeout_ms : ℕ → World D → World D
  set_reclaim_timeout_ms ms w = set_timeout_of w.control ms w

  unfoldable pub reclaim_outcome : World D → ReclaimOutcome
  reclaim_outcome w = elim w.control [ none ↦ not_attempted | some c ↦ c.last_reclaim ]
