-- ===== src/Dll/Object/Loads.antt =====
-- DLL/Object.h: loading, and the account of an object's modules over any sequence of calls.
use abix.Prelude.{
  ℕ, ◌≡◌, ◌⊎◌, refl, sym, ◌∙◌, arith, Bool, true, false, Bool-cases, inl, inr, List, [], ◌∷◌,
  Option, none, some,
}
use abix.Dll.Object.{
  CallError, no_error, load_failed, lock_timeout, active, Image, Control, Domain, Answers, World,
  unload_module, discard_image, lock_writer, swap_image, publish_image, finish_load, load,
  unload_impl, force_unload, destroy_control, set_reclaim_timeout_ms, load_into,
}
use abix.Dll.Object.Accounts.{times, IsSearchable, IsSmall}
use abix.Dll.Object.Accounts.{current, Keeps, Sound, Ledger, logged, ledger_kept, Accounted}
use abix.Dll.Object.Fetch.{Fetched, load_image-Fetched}
use abix.Dll.Object.Calls.{
  Call, loads, unloads, forces, sets_timeout, destroys, run, run_all, retire_previous-Handed,
}
use abix.Dll.Object.Runs.{
  counted, image_of, swap_image-Sound, unload_module-Unloaded, unload_module-Sound,
  unload_from-Sound, force_from-Sound, set_timeout_of-Sound, destroy_of-Sound,
}

-- Every table that the calls load has at most 2 ^ 30 entries.
pub data Modest : List Call → Type 0 where
  ended : Modest []
  next :
      (c : Call) (cs : List Call)
      → ((a : Answers) (path : List ℕ) → c ≡ loads a path → IsSmall a)
      → Modest cs
      → Modest (c ∷ cs)

-- What `load` answers and leaves: the module that was opened is the object's, or the object is unchanged.
pub data Loads {D : Type 0} (w : World D) (a : Answers) (path : List ℕ)
    : Bool × CallError × World D → Type 0 where
  done :
      (after : World D) (img : Image)
      → current after ≡ some img
      → img.handle ≡ a.handle
      → img.export_table ≡ a.table
      → IsSearchable img
      → after.path ≡ some path
      → Loads w a path (true, no_error, after)
  failed :
      (error : CallError) (after : World D)
      → (error ≡ load_failed) ⊎ (error ≡ lock_timeout)
      → after.control ≡ w.control
      → after.path ≡ w.path
      → after.domain ≡ w.domain
      → Loads w a path (false, error, after)

module _ {D : Type 0} (dom : Domain D) (k : Keeps dom) where
  finish_load-Sound :
      (a : Answers) (path : List ℕ) (c : Control) (w after : World D) (image : Option Image)
      → w.control ≡ some c
      → Sound dom k w
      → Fetched a w image after
      → Sound dom k (finish_load dom a path c image after).2
  unfolding finish_load publish_image discard_image times
  finish_load-Sound a path c w after none e s x =
      let same : current after ≡ current w = rw x.control_kept refl in
      record {
        balanced = λ h real.
            let b = s.balanced h real in
            let o = x.opened_once h real in rw (same, x.domain_kept) (omega (arith, b, o));
        searchable = λ img at. s.searchable img (sym same ∙ at);
      }
  finish_load-Sound a path c w after (some img) e s x = elim (Bool-cases (lock_writer true c a)) [
    | inl locked ↦
        let swapped = swap_image-Sound dom k (some img) active c after x.fit (λ h real.
          let b = counted dom k w c.image s (image_of dom k w c e) h real in
          let o = x.opened_once h real in rw x.domain_kept (omega (arith, b, o))) in
        rw locked (record { balanced = swapped.balanced; searchable = swapped.searchable })
    | inr late ↦
        let same : current after ≡ current w = rw x.control_kept refl in
        rw late (
          unload_module-Sound dom k img.handle after (λ i at. s.searchable i (sym same ∙ at))
            (λ h real.
              let b = s.balanced h real in
              let o = x.opened_once h real in rw (same, x.domain_kept) (omega (arith, b, o))))
  ]

  load_into-Sound :
      (o : Option Control) (a : Answers) (path : List ℕ) (w : World D)
      → w.control ≡ o
      → IsSmall a
      → Sound dom k w
      → (r : Bool × CallError × World D) × (load_into dom o a path w ≡ some r) × Sound dom k r.2
  unfolding load_into
  load_into-Sound none a path w e small s = ((false, load_failed, w), refl, s)
  load_into-Sound (some c) a path w e small s =
      let (image, after, fetched, x) = load_image-Fetched a w small in
      (
        finish_load dom a path c image after,
        rw (load_into, fetched) refl,
        finish_load-Sound a path c w after image e s x,
      )

  run-Sound :
      (c : Call) (w : World D)
      → ((a : Answers) (path : List ℕ) → c ≡ loads a path → IsSmall a)
      → Sound dom k w
      → (after : World D) × (run dom c w ≡ some after) × Sound dom k after
  unfolding run load unload_impl force_unload set_reclaim_timeout_ms destroy_control
  run-Sound (loads a path) w small s =
      let (r, e, s') = load_into-Sound w.control a path w refl (small a path refl) s in
      (r.2, rw (run, e) refl, s')
  run-Sound (unloads bounded a) w small s =
      (_, refl, unload_from-Sound dom k w.control bounded a w refl s)
  run-Sound forces w small s = (_, refl, force_from-Sound dom k w.control w refl s)
  run-Sound (sets_timeout ms) w small s =
      (_, refl, set_timeout_of-Sound dom k w.control ms w refl s)
  run-Sound destroys w small s = (_, refl, destroy_of-Sound dom k w.control w refl s)

module _ {D : Type 0} (dom : Domain D) (k : Keeps dom) where
  finish_load-Loads :
      (a : Answers) (path : List ℕ) (c : Control) (w after : World D) (image : Option Image)
      → Fetched a w image after
      → Loads w a path (finish_load dom a path c image after)
  unfolding finish_load publish_image discard_image swap_image
  finish_load-Loads a path c w after none x =
      failed load_failed after (inl refl) x.control_kept x.path_kept x.domain_kept
  finish_load-Loads a path c w after (some img) x = elim (Bool-cases (lock_writer true c a)) [
    | inl locked ↦
        let swapped = swap_image dom (some img) active c after in
        let handed =
          retire_previous-Handed dom k c.image (record c { image = some img; state = active })
            after in
        let (handle, table) = x.source img refl in
        rw locked (
          done (record swapped { path = some path }) img handed.is_current handle table
            (x.fit img refl) refl)
    | inr late ↦
        let u = unload_module-Unloaded dom k img.handle after in
        rw late (
          failed lock_timeout (unload_module img.handle after) (inr refl)
            (u.control_kept ∙ x.control_kept) (u.path_kept ∙ x.path_kept)
            (u.domain_kept ∙ x.domain_kept))
  ]

  load_into-Loads :
      (o : Option Control) (a : Answers) (path : List ℕ) (w : World D)
      → w.control ≡ o
      → IsSmall a
      → (r : Bool × CallError × World D) × (load_into dom o a path w ≡ some r) × Loads w a path r
  unfolding load_into
  load_into-Loads none a path w e small =
      ((false, load_failed, w), refl, failed load_failed w (inl refl) refl refl refl)
  load_into-Loads (some c) a path w e small =
      let (image, after, fetched, x) = load_image-Fetched a w small in
      (
        finish_load dom a path c image after,
        rw (load_into, fetched) refl,
        finish_load-Loads a path c w after image x,
      )

  load-Ends :
      (a : Answers) (path : List ℕ) (w : World D)
      → IsSmall a
      → (r : Bool × CallError × World D) × (load dom a path w ≡ some r) × Loads w a path r
  unfolding load
  load-Ends a path w small = load_into-Loads w.control a path w refl small

-- Whatever the epoch domain answers: for a table of at most 2 ^ 30 entries, load ends, in one of two ways. It
-- succeeds without an error, the opened module with its table is the object's image, can be searched, and
-- the path is kept; or it fails with load_failed or lock_timeout, and the control block, the path and the
-- domain are what they were.
pub load-Loads :
    {D : Type 0} (dom : Domain D) (a : Answers) (path : List ℕ) (w : World (Ledger D))
    → IsSmall a
    → (r : Bool × CallError × World (Ledger D)) × (load (logged dom) a path w ≡ some r)
      × Loads w a path r
load-Loads dom a path w small = load-Ends (logged dom) (ledger_kept dom) a path w small

run_all-Kept :
    {D : Type 0} (dom : Domain D) (k : Keeps dom) (cs : List Call) (w : World D)
    → Modest cs
    → Sound dom k w
    → (after : World D) × (run_all dom cs w ≡ some after) × Sound dom k after
unfolding run_all
run_all-Kept dom k _ w ended s = (w, refl, s)
run_all-Kept dom k _ w (next c cs small more) s =
    let (mid, e, s') = run-Sound dom k c w small s in
    let (after, e', s'') = run_all-Kept dom k cs mid more s' in (after, rw (run_all, e) e', s'')

-- Whatever the epoch domain answers, and for calls whose tables have at most 2 ^ 30 entries: any sequence of
-- loads, reloads, unloads, forced unloads, changes of the timeout and the destruction ends. If before it
-- every module was as often opened as it was closed, passed to retire_token, or is the image, together, and
-- the image can be searched, so it is afterwards: no module is lost, closed twice, or both closed and
-- retired, and the image's table has the right magic and its index, where it has one, is built for it.
pub run_all-Sound :
    {D : Type 0} (dom : Domain D) (cs : List Call) (w : World (Ledger D))
    → Modest cs
    → Accounted w
    → (after : World (Ledger D)) × (run_all (logged dom) cs w ≡ some after) × Accounted after
run_all-Sound dom cs w small s =
    let (after, e, t) =
      run_all-Kept (logged dom) (ledger_kept dom) cs w small
        (record { balanced = s.balanced; searchable = s.searchable }) in
    (after, e, record { balanced = t.balanced; searchable = t.searchable })
