-- ===== src/Tests/Contract.antt =====
-- include/SKL/ABIX/Interface/Contract.h: the identities of small interfaces.
use mathlib.Core.List.{Memᴰ, Permᴰ}
use abix.Prelude.{◌≡◌, refl, arith, [], ◌∷◌, some}
use abix.Model.Abi.{codes}
use abix.Runtime.Registry.{parse_version}
use abix.Interface.Contract.{InterfaceMethodHash, InterfaceMethodKey, interface_id_of_keys}
use abix.Interface.Contract.Decimal.{decimal, parse_version-decimal}
use abix.Interface.Contract.Order.{DistinctSlots, interface_id_of_keys-Perm}

abbrev area : InterfaceMethodHash
area = record { lo = 7; hi = 1024 }

abbrev resize : InterfaceMethodHash
resize = record { lo = 8; hi = 0 }

abbrev first : InterfaceMethodKey
first = record { signature = area; slot = 0 }

abbrev second : InterfaceMethodKey
second = record { signature = resize; slot = 1 }

slots-Distinct : DistinctSlots (second ∷ first ∷ [])
unfolding DistinctSlots
slots-Distinct a b (Memᴰ.head e) (Memᴰ.head f) h = rw (e, f) refl
slots-Distinct a b (Memᴰ.head e) (Memᴰ.tail (Memᴰ.head f)) h = absurd (cc)
slots-Distinct a b (Memᴰ.tail (Memᴰ.head e)) (Memᴰ.head f) h = absurd (cc)
slots-Distinct a b (Memᴰ.tail (Memᴰ.head e)) (Memᴰ.tail (Memᴰ.head f)) h = rw (e, f) refl
slots-Distinct a b (Memᴰ.head e) (Memᴰ.tail (Memᴰ.tail i)) h = elim i [ ]
slots-Distinct a b (Memᴰ.tail (Memᴰ.head e)) (Memᴰ.tail (Memᴰ.tail i)) h = elim i [ ]
slots-Distinct a b (Memᴰ.tail (Memᴰ.tail i)) j h = elim i [ ]

interface_id_of_keys-Perm_example :
    interface_id_of_keys (some (codes "Shape")) 1 (second ∷ first ∷ [])
    ≡ interface_id_of_keys (some (codes "Shape")) 1 (first ∷ second ∷ [])
interface_id_of_keys-Perm_example =
    interface_id_of_keys-Perm (some (codes "Shape")) 1 (Permᴰ.swap refl refl) slots-Distinct

parse_version-decimal_example : parse_version (some (decimal 1024)) ≡ 1024
parse_version-decimal_example = parse_version-decimal 1024 (omega arith)
