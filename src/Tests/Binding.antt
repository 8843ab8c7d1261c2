-- ===== src/Tests/Binding.antt =====
-- include/SKL/ABIX/Interface/Registry.h and Ref.h: a small registry and its handles.
use abix.Prelude.{◌≡◌, ◌≢◌, refl, arith, List, [], ◌∷◌, some, find as find_first, newest}
use abix.Util.Hash.{zero_hash}
use abix.Model.Abi.{Pointer}
use abix.Interface.Contract.{InterfaceMethodHash, InterfaceMethod, InterfaceImplementation}
use abix.Interface.Registry.{
  InterfaceRegistry, find, find_exact, find_newest, available, add, invalid_implementation,
}
use abix.Interface.Registry.Laws.{IsValid}
use abix.Interface.Ref.{
  InterfaceRef, resolve_methods, method, bound, signature, verified_method, has_slot, resolve_cache,
  cached_method, scan_slots, fill, fill_slot_entries, check_slot, check_slots,
}
use abix.Interface.Ref.Slots.{last_at, written}
use abix.Interface.Ref.Resolve.{resolve_methods-ok}
use abix.Interface.Ref.Cache.{resolve_cache-ok}
use abix.Interface.Ref.Table.{build, Agree, build-resolve_cache}

abbrev draw : InterfaceMethod
draw = record { signature = record { lo = 5; hi = 6 }; entry = 4096; slot = 1; flags = 0 }

abbrev table : Pointer InterfaceMethod
table = some (λ i. draw)

abbrev circle : InterfaceImplementation
circle = record {
  interface_id = record { lo = 1; hi = 2 };
  concrete_type = record { lo = 3; hi = 4 };
  methods = table;
  method_count = 1;
  version = 2;
  flags = 0;
}

abbrev circle_3 : InterfaceImplementation
circle_3 = record circle { version = 3 }

abbrev bare : InterfaceRegistry
bare = record { entries = []; lookups = 0 }

abbrev holding : InterfaceRegistry
holding = record { entries = circle ∷ []; lookups = 0 }

opened : Unit {0}
unfolding find_first newest find_exact find_newest find available add invalid_implementation last_at
    scan_slots fill fill_slot_entries check_slot check_slots resolve_methods resolve_cache method
    bound signature verified_method
opened = tt

holding-IsValid : IsValid 4 holding
unfolding opened
holding-IsValid = record { bounded = omega arith; tables = (refl, tt); distinct = (refl, tt) }

resolve_methods-ok_example :
    (method (resolve_methods 4 circle.interface_id 2 table 1 (some 64)).1 1
      ≡ written (λ m. m.entry) (last_at 1 (draw ∷ [])) 0)
    × (signature (resolve_methods 4 circle.interface_id 2 table 1 (some 64)).1 1
        ≡ written (λ m. m.signature) (last_at 1 (draw ∷ [])) zero_hash)
resolve_methods-ok_example =
    resolve_methods-ok 4 circle.interface_id 2 table 1 (some 64) (omega arith)
      (unfold opened in refl) 1

abbrev handle : InterfaceRef
handle = record {
  object = some 64;
  interface_id = circle.interface_id;
  version = 2;
  method_count = 2;
  entries = 0 ∷ 4096 ∷ [];
  signatures = zero_hash ∷ record { lo = 5; hi = 6 } ∷ [];
}

abbrev contract : List InterfaceMethodHash
contract = zero_hash ∷ record { lo = 5; hi = 6 } ∷ []

resolve_cache-ok_example :
    (m : InterfaceMethod) × (find_first (has_slot 1) (draw ∷ []) ≡ some m)
    × (m.signature ≡ record { lo = 5; hi = 6 })
    × (m.entry ≢ 0)
    × (cached_method 4 (resolve_cache 4 table 1 (some 64) contract).1 1 ≡ m.entry)
resolve_cache-ok_example =
    resolve_cache-ok 4 table 1 (some 64) contract (omega arith) (unfold last_at in (refl, tt))
      (unfold opened in refl) 1 (omega arith) (λ e. ground arith)

build-resolve_cache_example :
    Agree 4 (resolve_cache 4 table 1 (some 64) contract) (build 4 table 1 contract)
build-resolve_cache_example = build-resolve_cache 4 table 1 64 contract
