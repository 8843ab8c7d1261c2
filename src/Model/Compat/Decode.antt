-- ===== src/Model/Compat/Decode.antt =====
-- The encoding can be read back: equal bytes come from equal layout facts.
use abix.Prelude.{
  ℕ, ◌^◌, ◌≤◌, ◌<◌, ◌≡◌, refl, sym, ap, ap₂, ◌∙◌, arith, List, [], ◌∷◌, ◌++◌, length, take, drop,
  All, map, some,
}
use abix.Util.Hash.{Hash128}
use abix.Util.Hash.Bits.{bit_and-le}
use abix.Util.Hash.Bytes.{of_be, be32, be64}
use abix.Model.Compat.Sinks.{encode-fits}
use abix.Model.Abi.{Pointer, TypeId, TypeLayout, Field}
use abix.Model.Compat.{encode_canonical_layout, LayoutContext, canonical_layout_flags}
use abix.Model.Compat.Encoding.{fields_of, cle_bytes, header_bytes, fields_bytes}

-- The word of `w` bytes at `k`.
abbrev word : ℕ → ℕ → List ℕ → ℕ
word w k bytes = of_be 0 (take w (drop k bytes))

pub record HashFits (h : Hash128) : Type 0 where
  pub lo_fits : h.lo < 2 ^ 64
  pub hi_fits : h.hi < 2 ^ 64

-- What the encoding records of a field.
pub record FieldFacts : Type 0 where
  pub type_id : TypeId
  pub offset : ℕ
  pub flags : ℕ

abbrev pub facts : Field → FieldFacts
facts f = record { type_id = f.type_id; offset = f.offset; flags = canonical_layout_flags f.flags }

-- The widths of the fields in the source.
pub record FieldFits (f : Field) : Type 0 where
  pub type_id_fits : HashFits f.type_id
  pub offset_fits : f.offset < 2 ^ 32

pub record LayoutFits (c : LayoutContext) (t : TypeId) (l : TypeLayout) (fs : List Field)
    : Type 0 where
  pub arch_fits : c.arch < 2 ^ 32
  pub os_fits : c.os < 2 ^ 32
  pub abi_fits : c.abi < 2 ^ 32
  pub compiler_fits : c.compiler < 2 ^ 32
  pub id_fits : HashFits t
  pub size_fits : l.size < 2 ^ 32
  pub align_fits : l.align < 2 ^ 32
  pub count_fits : l.field_count < 2 ^ 32
  pub fields_fit : All FieldFits fs

flags-lt : (flags : ℕ) → canonical_layout_flags flags < 2 ^ 32
unfolding canonical_layout_flags
flags-lt flags = omega (arith, bit_and-le flags 0xFFFF_0003)

word32_inj : (v w : ℕ) → v < 2 ^ 32 → w < 2 ^ 32 → of_be 0 (be32 v) ≡ of_be 0 (be32 w) → v ≡ w
word32_inj v w hv hw e = omega arith

word64_inj : (v w : ℕ) → v < 2 ^ 64 → w < 2 ^ 64 → of_be 0 (be64 v) ≡ of_be 0 (be64 w) → v ≡ w
word64_inj v w hv hw e = omega arith

hash_inj :
    (g h : Hash128)
    → HashFits g
    → HashFits h
    → of_be 0 (be64 g.lo) ≡ of_be 0 (be64 h.lo)
    → of_be 0 (be64 g.hi) ≡ of_be 0 (be64 h.hi)
    → g ≡ h
hash_inj g h p q lo hi =
    let lo_eq = word64_inj g.lo h.lo p.lo_fits q.lo_fits lo in
    let hi_eq = word64_inj g.hi h.hi p.hi_fits q.hi_fits hi in
    λ i. record { lo = lo_eq i; hi = hi_eq i }

fields_bytes_inj :
    (fs gs : List Field)
    → All FieldFits fs
    → All FieldFits gs
    → fields_bytes fs ≡ fields_bytes gs
    → map facts fs ≡ map facts gs
fields_bytes_inj [] [] p q e = refl
fields_bytes_inj [] (g ∷ gs) p q e = cc
fields_bytes_inj (f ∷ fs) [] p q e = cc
fields_bytes_inj (f ∷ fs) (g ∷ gs) p q e =
    let id =
      hash_inj f.type_id g.type_id p.0.type_id_fits q.0.type_id_fits (ap (word 8 0) e)
        (ap (word 8 8) e) in
    let offset = word32_inj f.offset g.offset p.0.offset_fits q.0.offset_fits (ap (word 4 16) e) in
    let flags =
      word32_inj (canonical_layout_flags f.flags) (canonical_layout_flags g.flags)
        (flags-lt f.flags) (flags-lt g.flags) (ap (word 4 20) e) in
    ap₂ (λ (x : FieldFacts) (r : List FieldFacts). x ∷ r)
      (λ i. record { type_id = id i; offset = offset i; flags = flags i })
      (fields_bytes_inj fs gs p.1 q.1 (ap (drop 24) e))

cle_bytes_inj :
    (c d : LayoutContext) (t u : TypeId) (l m : TypeLayout) (fs gs : List Field)
    → LayoutFits c t l fs
    → LayoutFits d u m gs
    → cle_bytes c t l fs ≡ cle_bytes d u m gs
    → (c ≡ d)
      × (t ≡ u)
      × (l.size ≡ m.size)
      × (l.align ≡ m.align)
      × (l.field_count ≡ m.field_count)
      × (map facts fs ≡ map facts gs)
unfolding cle_bytes header_bytes
cle_bytes_inj c d t u l m fs gs p q e =
    let arch = word32_inj c.arch d.arch p.arch_fits q.arch_fits (ap (word 4 10) e) in
    let os = word32_inj c.os d.os p.os_fits q.os_fits (ap (word 4 14) e) in
    let abi = word32_inj c.abi d.abi p.abi_fits q.abi_fits (ap (word 4 18) e) in
    let compiler =
      word32_inj c.compiler d.compiler p.compiler_fits q.compiler_fits (ap (word 4 22) e) in
    (
      λ i. record { arch = arch i; os = os i; abi = abi i; compiler = compiler i },
      hash_inj t u p.id_fits q.id_fits (ap (word 8 26) e) (ap (word 8 34) e),
      word32_inj l.size m.size p.size_fits q.size_fits (ap (word 4 42) e),
      word32_inj l.align m.align p.align_fits q.align_fits (ap (word 4 46) e),
      word32_inj l.field_count m.field_count p.count_fits q.count_fits (ap (word 4 50) e),
      fields_bytes_inj fs gs p.fields_fit q.fields_fit (ap (drop 54) e),
    )

append_inj : (xs ys us vs : List ℕ) → length xs ≡ length ys → xs ++ us ≡ ys ++ vs → xs ≡ ys
append_inj [] [] us vs n e = refl
append_inj [] (y ∷ ys) us vs n e = absurd (omega arith)
append_inj (x ∷ xs) [] us vs n e = absurd (omega arith)
append_inj (x ∷ xs) (y ∷ ys) us vs n e =
    ap₂ (λ (a : ℕ) (r : List ℕ). a ∷ r) (cc) (append_inj xs ys us vs (omega arith) (cc))

-- Two layouts that the encoder writes alike into a buffer with room for both agree in everything
-- that the encoding records: the context, the type, size, alignment and field count, and of every
-- field its type, offset and ABI flags.
pub encode_canonical_layout_inj :
    (c d : LayoutContext) (t u : TypeId) (l m : TypeLayout) (p q : Pointer Field)
    (fs gs : List Field) (out : List ℕ) (capacity : ℕ)
    → fields_of l.field_count p ≡ some fs
    → fields_of m.field_count q ≡ some gs
    → LayoutFits c t l fs
    → LayoutFits d u m gs
    → length (cle_bytes c t l fs) ≤ capacity
    → length (cle_bytes d u m gs) ≤ capacity
    → capacity ≤ length out
    → encode_canonical_layout c t l p out capacity ≡ encode_canonical_layout d u m q out capacity
    → (c ≡ d)
      × (t ≡ u)
      × (l.size ≡ m.size)
      × (l.align ≡ m.align)
      × (l.field_count ≡ m.field_count)
      × (map facts fs ≡ map facts gs)
encode_canonical_layout_inj c d t u l m p q fs gs out capacity rp rq fp fq np nq room e =
    let one = encode-fits c t l p fs rp out capacity np room in
    let two = encode-fits d u m q gs rq out capacity nq room in
    let same = sym one ∙ e ∙ two in
    cle_bytes_inj c d t u l m fs gs fp fq (
      append_inj (cle_bytes c t l fs) (cle_bytes d u m gs) _ _ (ap (λ b. b.0) same)
        (ap (λ b. b.1) same))
