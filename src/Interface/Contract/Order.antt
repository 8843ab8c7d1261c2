-- ===== src/Interface/Contract/Order.antt =====
-- The identity of an interface does not depend on the order in which its methods are declared.
use mathlib.Core.List.{Memᴰ, Permᴰ}
use abix.Prelude.{
  ℕ, ◌≡◌, refl, sym, ap, ◌∙◌, arith, false, inl, inr, Bool-cases, ltb, ◌==◌, List, [], ◌∷◌,
}
use abix.Model.Abi.{CString}
use abix.Interface.Contract.{
  InterfaceMethodKey, insert_key, sort_keys, signatures_of, interface_id, interface_id_of_keys,
}

-- Two keys of one slot are the same key.
unfoldable pub DistinctSlots : List InterfaceMethodKey → Type 0
DistinctSlots keys =
    (a b : InterfaceMethodKey) → Memᴰ a keys → Memᴰ b keys → a.slot ≡ b.slot → a ≡ b

insert_key-other :
    (a b : InterfaceMethodKey) (keys : List InterfaceMethodKey)
    → (a.slot == b.slot) ≡ false
    → insert_key a (insert_key b keys) ≡ insert_key b (insert_key a keys)
unfolding insert_key
insert_key-other a b [] other = ground arith
insert_key-other a b (x ∷ xs) other =
    let rest = insert_key-other a b xs other in
    elim (Bool-cases (ltb a.slot x.slot)) [
      | inl left ↦ elim (Bool-cases (ltb b.slot x.slot)) [
        | inl right ↦ rw (left, right, insert_key, left) (ap (λ l. x ∷ l) rest)
        | inr right ↦ ground arith
      ]
      | inr left ↦ elim (Bool-cases (ltb b.slot x.slot)) [
        | inl right ↦ ground arith
        | inr right ↦ ground arith
      ]
    ]

insert_key_comm :
    (a b : InterfaceMethodKey) (keys : List InterfaceMethodKey)
    → (a.slot ≡ b.slot → a ≡ b)
    → insert_key a (insert_key b keys) ≡ insert_key b (insert_key a keys)
insert_key_comm a b keys same = elim (Bool-cases (a.slot == b.slot)) [
  | inl equal ↦ rw (same (ground arith)) refl
  | inr other ↦ insert_key-other a b keys other
]

Mem-back :
    {l k : List InterfaceMethodKey} → Permᴰ l k → (a : InterfaceMethodKey) → Memᴰ a k → Memᴰ a l
Mem-back Permᴰ.nil a i = i
Mem-back (Permᴰ.cons e d) a (Memᴰ.head h) = Memᴰ.head (h ∙ sym e)
Mem-back (Permᴰ.cons e d) a (Memᴰ.tail i) = Memᴰ.tail (Mem-back d a i)
Mem-back (Permᴰ.swap e f) a (Memᴰ.head h) = Memᴰ.tail (Memᴰ.head (h ∙ sym f))
Mem-back (Permᴰ.swap e f) a (Memᴰ.tail (Memᴰ.head h)) = Memᴰ.head (h ∙ sym e)
Mem-back (Permᴰ.swap e f) a (Memᴰ.tail (Memᴰ.tail i)) = Memᴰ.tail (Memᴰ.tail i)
Mem-back (Permᴰ.trans d d') a i = Mem-back d a (Mem-back d' a i)

sort_keys-Perm :
    {l k : List InterfaceMethodKey}
    → Permᴰ l k
    → (sorted : List InterfaceMethodKey) → DistinctSlots l
    → sort_keys sorted l ≡ sort_keys sorted k
unfolding sort_keys DistinctSlots
sort_keys-Perm Permᴰ.nil sorted h = refl
sort_keys-Perm (Permᴰ.cons {a = a} e d) sorted h =
    sort_keys-Perm d (insert_key a sorted) (λ x y i j. h x y (Memᴰ.tail i) (Memᴰ.tail j))
    ∙ rw e refl
sort_keys-Perm (Permᴰ.swap {a = a} {b = b} {l = l} e f) sorted h =
    ap (λ s. sort_keys s l)
      (insert_key_comm b a sorted
        (λ same. sym (h a b (Memᴰ.head refl) (Memᴰ.tail (Memᴰ.head refl)) (sym same))))
    ∙ rw (sym e, sym f) refl
sort_keys-Perm (Permᴰ.trans d d') sorted h =
    sort_keys-Perm d sorted h
    ∙ sort_keys-Perm d' sorted (λ x y i j. h x y (Mem-back d x i) (Mem-back d y j))

-- Where no slot has two different methods, the order of the declarations does not matter: every
-- permutation of the methods gives the same identity.
pub interface_id_of_keys-Perm :
    (name : CString) (version : ℕ) {l k : List InterfaceMethodKey}
    → Permᴰ l k
    → DistinctSlots l
    → interface_id_of_keys name version l ≡ interface_id_of_keys name version k
unfolding interface_id_of_keys
interface_id_of_keys-Perm name version d h =
    ap (λ s. interface_id name version (signatures_of s [])) (sort_keys-Perm d [] h)
