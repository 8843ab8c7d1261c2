-- ===== src/Model/Compat/Signature.antt =====
-- The signature digest as the canonical hash of one list of bytes.
use abix.Prelude.{ℕ, ◌≡◌, refl, sym, ap, ◌∙◌, List, [], ◌∷◌, ◌++◌}
use abix.Util.Hash.{
  CanonicalState, canonical_hash_begin, canonical_hash_bytes, canonical_hash, canonical_hash_u32_be,
  canonical_hash_u64_be,
}
use abix.Util.Hash.Bytes.{
  be32, be64, canonical_hash_u32_be_lem, canonical_hash_u64_be_lem, canonical_hash_bytes-append,
}
use abix.Model.Abi.{TypeId, Pointer}
use abix.Model.Compat.{hash_parameters, parameter_list, abi_signature_hash, abi_signature_domain}

abbrev types_bytes : List TypeId → List ℕ
types_bytes [] = []
types_bytes (p ∷ ps) = be64 p.lo ++ be64 p.hi ++ types_bytes ps

-- The bytes of a signature: the return type, the count, the parameters, the calling convention
-- and the qualifiers.
pub signature_bytes : TypeId → ℕ → List TypeId → ℕ → ℕ → List ℕ
signature_bytes return_type count ps calling_convention qualifiers =
    be64 return_type.lo
    ++ be64 return_type.hi
    ++ be64 count
    ++ (types_bytes ps ++ (be32 calling_convention ++ be32 qualifiers))

-- Digesting a word and then bytes digests the word's bytes before them.
u64_then :
    (s : CanonicalState) (v : ℕ) (ys : List ℕ)
    → canonical_hash_bytes (canonical_hash_u64_be s v) ys ≡ canonical_hash_bytes s (be64 v ++ ys)
u64_then s v ys =
    rw (canonical_hash_u64_be_lem s v) (sym (canonical_hash_bytes-append s (be64 v) ys))

parameters_then :
    (s : CanonicalState) (ps : List TypeId) (ys : List ℕ)
    → canonical_hash_bytes (hash_parameters s ps) ys ≡ canonical_hash_bytes s (types_bytes ps ++ ys)
unfolding hash_parameters
parameters_then s [] ys = refl
parameters_then s (p ∷ ps) ys =
    parameters_then (canonical_hash_u64_be (canonical_hash_u64_be s p.lo) p.hi) ps ys
    ∙ u64_then (canonical_hash_u64_be s p.lo) p.hi (types_bytes ps ++ ys)
    ∙ u64_then s p.lo (be64 p.hi ++ (types_bytes ps ++ ys))

trailer :
    (s : CanonicalState) (cc q : ℕ)
    → canonical_hash_u32_be (canonical_hash_u32_be s cc) q
      ≡ canonical_hash_bytes s (be32 cc ++ be32 q)
trailer s cc q =
    canonical_hash_u32_be_lem (canonical_hash_u32_be s cc) q
    ∙ ap (λ t. canonical_hash_bytes t (be32 q)) (canonical_hash_u32_be_lem s cc)
    ∙ sym (canonical_hash_bytes-append s (be32 cc) (be32 q))

-- The signature digest is the canonical hash of the signature's bytes: the return type, the
-- parameter count, the parameters that are read, the calling convention and the qualifiers.
pub abi_signature_hash_lem :
    (r : TypeId) (ps : Pointer TypeId) (n cc q : ℕ)
    → abi_signature_hash r ps n cc q
      ≡ canonical_hash (signature_bytes r n (parameter_list n ps) cc q) abi_signature_domain
unfolding abi_signature_hash signature_bytes canonical_hash
abi_signature_hash_lem r ps n cc q =
    let s = canonical_hash_begin abi_signature_domain in
    let tail = be32 cc ++ be32 q in
    let list = types_bytes (parameter_list n ps) ++ tail in
    let s1 = canonical_hash_u64_be s r.lo in
    let s2 = canonical_hash_u64_be s1 r.hi in
    let s3 = canonical_hash_u64_be s2 n in
    let e =
      trailer (hash_parameters s3 (parameter_list n ps)) cc q
      ∙ parameters_then s3 (parameter_list n ps) tail
      ∙ u64_then s2 n list
      ∙ u64_then s1 r.hi (be64 n ++ list)
      ∙ u64_then s r.lo (be64 r.hi ++ (be64 n ++ list)) in
    λ i. record { lo = (e i).lo; hi = (e i).hi }
