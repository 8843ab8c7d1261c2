-- ===== src/Model/Compat/Encoding.antt =====
-- The encoding as one list of bytes, and the visitor as the feeding of that list to a sink.
use abix.Prelude.{
  ℕ, zero, suc, ◌+◌, ◌*◌, ◌≡◌, refl, sym, ap, subst, arith, ◌≢◌, fun_ext, ◌∙◌, false, List, [], ◌∷◌,
  ◌++◌, Option, none, some, length, elems,
}
use abix.Util.Hash.{Hash128}
use abix.Util.Hash.Bytes.{be16, be32, be64}
use abix.Model.Abi.{TypeId, TypeLayout, Field, Pointer, codes}
use abix.Model.Compat.{
  LayoutContext, Method, ◌>>◌, succeed, canonical_layout_flags, put_u16, put_u32, put_u64, put_hash,
  put_magic, put_fields, put_field_list, visit_canonical_layout,
}

abbrev pub hash_bytes : Hash128 → List ℕ
hash_bytes h = be64 h.lo ++ be64 h.hi

abbrev pub fields_bytes : List Field → List ℕ
fields_bytes [] = []
fields_bytes (f ∷ fs) =
    hash_bytes f.type_id
    ++ be32 f.offset
    ++ be32 (canonical_layout_flags f.flags)
    ++ fields_bytes fs

-- The fixed part: the magic text, the version, the context, the type and the layout's numbers.
unfoldable pub header_bytes : LayoutContext → TypeId → TypeLayout → List ℕ
header_bytes context type_id layout =
    codes "ABIX-CLE"
    ++ be16 1
    ++ be32 context.arch
    ++ be32 context.os
    ++ be32 context.abi
    ++ be32 context.compiler
    ++ hash_bytes type_id
    ++ be32 layout.size
    ++ be32 layout.align
    ++ be32 layout.field_count

-- The canonical bytes of a layout whose fields are `fields`.
unfoldable pub cle_bytes : LayoutContext → TypeId → TypeLayout → List Field → List ℕ
cle_bytes context type_id layout fields = header_bytes context type_id layout ++ fields_bytes fields

length-fields_bytes : (fs : List Field) → length (fields_bytes fs) ≡ 24 * length fs
length-fields_bytes [] = refl
length-fields_bytes (f ∷ fs) = omega (arith, length-fields_bytes fs)

-- The encoding takes 54 bytes and 24 for each field.
pub length-cle_bytes :
    (c : LayoutContext) (t : TypeId) (l : TypeLayout) (fs : List Field)
    → length (cle_bytes c t l fs) ≡ 54 + 24 * length fs
unfolding cle_bytes header_bytes
length-cle_bytes c t l fs = omega (arith, length-fields_bytes fs)

-- The fields that the loop reads: `none` where the pointer is null and the count is not 0.
abbrev pub fields_of : ℕ → Pointer Field → Option (List Field)
fields_of zero none = some []
fields_of (suc n) none = none
fields_of n (some fields) = some (elems n fields)

module _ {S : Type 0} where
  seq_assoc : (m k n : Method S) → ((m >> k) >> n) ≡ (m >> (k >> n))
  seq_assoc m k n = fun_ext (λ s. ground arith)

  seq-succeed : (m : Method S) → (m >> succeed) ≡ m
  seq-succeed m = fun_ext (λ s. ground arith)

module _ {S : Type 0} (put : ℕ → Method S) where
  unfoldable pub feed : List ℕ → Method S
  feed [] = succeed
  feed (b ∷ bs) = put b >> feed bs

  pub feed-append : (xs ys : List ℕ) → feed (xs ++ ys) ≡ (feed xs >> feed ys)
  unfolding feed
  feed-append [] ys = refl
  feed-append (x ∷ xs) ys = rw (feed-append xs ys) (sym (seq_assoc (put x) (feed xs) (feed ys)))

  put_hash-u64 :
      (h : Hash128) (k : Method S)
      → (put_hash put h >> k) ≡ (put_u64 put h.lo >> (put_u64 put h.hi >> k))
  unfolding put_hash
  put_hash-u64 h k = seq_assoc (put_u64 put h.lo) (put_u64 put h.hi) k

  put_magic-feed : (cs : List ℕ) → put_magic put cs ≡ feed cs
  unfolding put_magic feed
  put_magic-feed [] = refl
  put_magic-feed (c ∷ cs) = rw (put_magic-feed cs)

  put_u16-feed : (v : ℕ) → put_u16 put v ≡ feed (be16 v)
  unfolding put_u16 feed
  put_u16-feed v = simp seq-succeed

  put_u32-feed : (v : ℕ) → put_u32 put v ≡ feed (be32 v)
  unfolding put_u32 feed
  put_u32-feed v = simp seq-succeed

  put_u64-feed : (v : ℕ) → put_u64 put v ≡ feed (be64 v)
  unfolding put_u64 feed
  put_u64-feed v = simp seq-succeed

  feed_nil : (r : Method S) → r ≡ (feed [] >> r)
  unfolding feed
  feed_nil r = refl

  module _ (r : Method S) where
    -- A put before a method that feeds `ys` feeds the bytes of the put before `ys`.
    feed_then :
        (xs ys : List ℕ) {k : Method S}
        → k ≡ (feed ys >> r)
        → (feed xs >> k) ≡ (feed (xs ++ ys) >> r)
    feed_then xs ys e =
        rw e (sym (ap (λ m. m >> r) (feed-append xs ys) ∙ seq_assoc (feed xs) (feed ys) r))

    u16_then :
        (v : ℕ) (ys : List ℕ) {k : Method S}
        → k ≡ (feed ys >> r)
        → (put_u16 put v >> k) ≡ (feed (be16 v ++ ys) >> r)
    u16_then v ys e = rw (put_u16-feed v) (feed_then (be16 v) ys e)

    u32_then :
        (v : ℕ) (ys : List ℕ) {k : Method S}
        → k ≡ (feed ys >> r)
        → (put_u32 put v >> k) ≡ (feed (be32 v ++ ys) >> r)
    u32_then v ys e = rw (put_u32-feed v) (feed_then (be32 v) ys e)

    hash_then :
        (h : Hash128) (ys : List ℕ) {k : Method S}
        → k ≡ (feed ys >> r)
        → (put_hash put h >> k) ≡ (feed (hash_bytes h ++ ys) >> r)
    hash_then h ys {k} e =
        rw (put_hash-u64 h k, put_u64-feed h.lo, put_u64-feed h.hi)
          (feed_then (be64 h.lo) (be64 h.hi ++ ys) (feed_then (be64 h.hi) ys e))

  put_fields-feed : (fs : List Field) → put_fields put fs ≡ (feed (fields_bytes fs) >> succeed)
  unfolding put_fields
  put_fields-feed [] = unfold feed in refl
  put_fields-feed (f ∷ fs) = hash_then succeed f.type_id _ (
      u32_then succeed f.offset _
        (u32_then succeed (canonical_layout_flags f.flags) _ (put_fields-feed fs)))

  -- The visitor feeds the header, and then goes through the fields.
  visit-header :
      (c : LayoutContext) (t : TypeId) (l : TypeLayout) (p : Pointer Field)
      → visit_canonical_layout put c t l p
        ≡ (feed (header_bytes c t l) >> put_field_list put l.field_count p)
  unfolding visit_canonical_layout header_bytes
  visit-header c t l p =
      let r = put_field_list put l.field_count p in
      rw (put_magic-feed (codes "ABIX-CLE")) (
        feed_then r (codes "ABIX-CLE") _ (
          u16_then r 1 _ (
            u32_then r c.arch _ (
              u32_then r c.os _ (
                u32_then r c.abi _ (
                  u32_then r c.compiler _ (
                    hash_then r t _ (
                      u32_then r l.size _
                        (u32_then r l.align _ (u32_then r l.field_count [] (feed_nil r)))))))))))

  -- With readable fields it feeds the canonical bytes and nothing else.
  pub visit-feed :
      (c : LayoutContext) (t : TypeId) (l : TypeLayout) (p : Pointer Field) (fs : List Field)
      → fields_of l.field_count p ≡ some fs
      → visit_canonical_layout put c t l p ≡ feed (cle_bytes c t l fs)
  unfolding put_field_list cle_bytes
  visit-feed c t l p fs e =
      visit-header c t l p
      ∙ ap (λ m. feed (header_bytes c t l) >> m) (field_list-feed l.field_count p fs e)
      ∙ sym (feed-append (header_bytes c t l) (fields_bytes fs))
    where
      start : (fs : List Field) → [] ≡ fs → succeed ≡ feed (fields_bytes fs)
      start fs e = subst (λ fs. succeed ≡ feed (fields_bytes fs)) e (unfold feed in refl)

      field_list-feed :
          (n : ℕ) (p : Pointer Field) (fs : List Field)
          → fields_of n p ≡ some fs
          → put_field_list put n p ≡ feed (fields_bytes fs)
      field_list-feed zero none fs e = start fs (cc)
      field_list-feed (suc n) none fs e = cc
      field_list-feed n (some f) fs e =
          let same : elems n f ≡ fs = cc in
          put_fields-feed (elems n f)
          ∙ seq-succeed (feed (fields_bytes (elems n f)))
          ∙ ap (λ fs. feed (fields_bytes fs)) same

  -- A null field pointer with a count fails, whatever was put before.
  pub visit-null :
      (c : LayoutContext) (t : TypeId) (l : TypeLayout) (s : S)
      → l.field_count ≢ 0
      → (visit_canonical_layout put c t l none s).1 ≡ false
  unfolding put_field_list
  visit-null c t l s h = rw (visit-header c t l none) (ground arith)
