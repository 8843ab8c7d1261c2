-- ===== src/Tests/Objects.antt =====
-- Runs of an object that loads modules, and the instances of its theorems.
use abix.Prelude.{
  ℕ, ◌^◌, ◌≤◌, ◌≡◌, refl, subst, arith, Bool, true, List, [], ◌∷◌, Option, none, some, length,
}
use abix.Runtime.Search.{Table, make_table}
use abix.Dll.Object.{
  CallError, no_error, not_attempted, zombie, Domain, Answers, World, load, load_into, load_image,
  index_for, finish_load, publish_image, swap_image, retire_previous, retire_image, grace_period,
  unload_impl, unload_from,
}
use abix.Dll.Object.Accounts.{times, Ledger, logged, Accounted, IsSmall}
use abix.Dll.Object.Calls.{Call, loads, unloads, run, run_all}
use abix.Dll.Object.Loads.{Modest, ended, next, Loads, load-Loads, run_all-Sound}

-- A domain that reclaims what is handed to it at once.
abbrev at_once : Domain (List ℕ)
at_once = record {
  retire_eager = λ d index. d;
  retire_token = λ d img. (0, img.handle ∷ d);
  synchronize = λ d. d;
  synchronize_eager = λ d. d;
  synchronize_until = λ d ms. (true, d);
  reclaimed_through = λ d token. true;
}

abbrev fresh : World (Ledger (List ℕ))
fresh = record {
  control = some (record {
    image = none;
    state = zombie;
    reclaim_timeout_ms = 0;
    last_reclaim = not_attempted;
  });
  strongs = 1;
  path = none;
  last_error = no_error;
  domain = record { domain = []; handed = [] };
  opened = [];
  closed = [];
}

abbrev exports : Table
exports =
    make_table
      (record { name = 97 ∷ []; sig = 5; version = 1; fnptr = 40; name_hash = 11; flags = 0 } ∷ [])

abbrev answers : ℕ → Answers
answers handle = record {
  handle = handle;
  table = some exports;
  image_allocated = true;
  slots_allocated = true;
  locked = true;
}

small : (handle : ℕ) → IsSmall (answers handle)
small handle t e =
    let same : exports ≡ t = cc in subst (λ u. length u.entries ≤ 2 ^ 30) same (omega arith)

-- A load, a reload and an unload.
abbrev calls : List Call
calls = loads (answers 7) (1 ∷ []) ∷ loads (answers 9) (2 ∷ []) ∷ unloads true (answers 0) ∷ []

calls-Modest : Modest calls
calls-Modest =
    next _ _ (λ a path e. is_small 7 a path (1 ∷ []) e)
      (next _ _ (λ a path e. is_small 9 a path (2 ∷ []) e) (next _ _ (λ a path e. cc) ended))
  where
    is_small :
        (h : ℕ) (a : Answers) (path p : List ℕ) → loads (answers h) p ≡ loads a path → IsSmall a
    is_small h a path p e = let same : answers h ≡ a = cc in subst (λ b. IsSmall b) same (small h)

fresh-Accounted : Accounted fresh
unfolding times
fresh-Accounted = record { balanced = λ h real. refl; searchable = λ img e. cc }

load-Loads_example :
    (r : Bool × CallError × World (Ledger (List ℕ))) × (load
        (logged at_once)
        (answers 7)
        (1 ∷ [])
        fresh
      ≡ some r)
    × Loads fresh (answers 7) (1 ∷ []) r
load-Loads_example = load-Loads at_once (answers 7) (1 ∷ []) fresh (small 7)

run_all-Sound_example :
    (after : World (Ledger (List ℕ))) × (run_all (logged at_once) calls fresh ≡ some after)
    × Accounted after
run_all-Sound_example = run_all-Sound at_once calls fresh calls-Modest fresh-Accounted

abbrev retired_after : Option (World (Ledger (List ℕ))) → Option (List ℕ)
retired_after none = none
retired_after (some w) = some w.domain.handed

-- Both images were retired, and none is left.
run_calls : retired_after (run_all (logged at_once) calls fresh) ≡ some (9 ∷ 7 ∷ [])
unfolding run_all run load load_into load_image index_for finish_load publish_image swap_image
    retire_previous retire_image grace_period unload_impl unload_from
run_calls = refl
