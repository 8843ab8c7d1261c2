-- ===== src/Interface/Contract/Text.antt =====
-- The identities of interfaces and methods as hashes of their texts.
use abix.Prelude.{ℕ, ◌≡◌, refl, List, [], ◌∷◌, ◌++◌, none, some}
use abix.Util.Hash.{
  CanonicalState, canonical_hash_begin, canonical_hash_byte, canonical_hash_bytes, canonical_hash,
}
use abix.Util.Hash.Bytes.{canonical_hash_bytes-append}
use abix.Model.Abi.{TypeId, CString, codes}
use abix.Interface.Contract.{
  InterfaceMethodHash, hash_name, hash_signatures, interface_id, interface_identity_domain,
  hash_types, method_signature, method_signature_domain,
}
use abix.Interface.Contract.Decimal.{decimal, interface_hash_u64-decimal}

-- The text of a name, empty where it is null.
abbrev name_text : CString → List ℕ
name_text none = []
name_text (some name) = name

signatures_text : List InterfaceMethodHash → List ℕ
signatures_text [] = []
signatures_text (s ∷ ss) = b':' ∷ (decimal s.lo ++ b':' ∷ (decimal s.hi ++ signatures_text ss))

-- `ABIX-INTERFACE:name:version:lo:hi:lo:hi...`, in decimal.
pub interface_text : CString → ℕ → List InterfaceMethodHash → List ℕ
interface_text name version signatures =
    codes "ABIX-INTERFACE:"
    ++ (name_text name ++ b':' ∷ (decimal version ++ signatures_text signatures))

hash_name-bytes :
    (s : CanonicalState) (name : CString)
    → hash_name s name ≡ canonical_hash_bytes s (name_text name)
unfolding hash_name canonical_hash_bytes
hash_name-bytes s none = refl
hash_name-bytes s (some name) = refl

hash_signatures-bytes :
    (s : CanonicalState) (ss : List InterfaceMethodHash)
    → hash_signatures s ss ≡ canonical_hash_bytes s (signatures_text ss)
unfolding hash_signatures signatures_text canonical_hash_bytes
hash_signatures-bytes s [] = refl
hash_signatures-bytes s (x ∷ xs) =
    let low = canonical_hash_bytes (canonical_hash_byte s b':') (decimal x.lo) in
    let both = canonical_hash_bytes (canonical_hash_byte low b':') (decimal x.hi) in
    rw
      (
        interface_hash_u64-decimal (canonical_hash_byte s b':') x.lo,
        interface_hash_u64-decimal (canonical_hash_byte low b':') x.hi,
        hash_signatures-bytes both xs,
        canonical_hash_bytes-append (canonical_hash_byte s b':') (decimal x.lo)
            (b':' ∷ (decimal x.hi ++ signatures_text xs)),
        canonical_hash_bytes-append (canonical_hash_byte low b':') (decimal x.hi)
            (signatures_text xs),
      )
      refl

-- An interface's identity is the canonical hash of its text.
pub interface_id_lem :
    (name : CString) (version : ℕ) (signatures : List InterfaceMethodHash)
    → interface_id name version signatures
      ≡ canonical_hash (interface_text name version signatures) interface_identity_domain
unfolding interface_id canonical_hash canonical_hash_bytes interface_text
interface_id_lem name version signatures =
    let begun = canonical_hash_begin interface_identity_domain in
    let tagged = canonical_hash_bytes begun (codes "ABIX-INTERFACE:") in
    let named = canonical_hash_bytes tagged (name_text name) in
    rw
      (
        hash_name-bytes tagged name,
        interface_hash_u64-decimal (canonical_hash_byte named b':') version,
        hash_signatures-bytes
            (canonical_hash_bytes (canonical_hash_byte named b':') (decimal version)) signatures,
        canonical_hash_bytes-append tagged (name_text name)
            (b':' ∷ (decimal version ++ signatures_text signatures)),
        canonical_hash_bytes-append (canonical_hash_byte named b':') (decimal version)
            (signatures_text signatures),
      )
      refl

types_text : List TypeId → List ℕ
types_text [] = []
types_text (t ∷ ts) = decimal t.lo ++ (decimal t.hi ++ types_text ts)

-- The name, then both lanes of the return type and of each parameter, in decimal and unseparated.
pub method_text : CString → TypeId → List TypeId → List ℕ
method_text name return_type parameters = name_text name ++ types_text (return_type ∷ parameters)

hash_types-bytes :
    (s : CanonicalState) (ts : List TypeId)
    → hash_types s ts ≡ canonical_hash_bytes s (types_text ts)
unfolding hash_types types_text canonical_hash_bytes
hash_types-bytes s [] = refl
hash_types-bytes s (x ∷ xs) =
    let low = canonical_hash_bytes s (decimal x.lo) in
    let both = canonical_hash_bytes low (decimal x.hi) in
    rw
      (
        interface_hash_u64-decimal s x.lo,
        interface_hash_u64-decimal low x.hi,
        hash_types-bytes both xs,
        canonical_hash_bytes-append s (decimal x.lo) (decimal x.hi ++ types_text xs),
        canonical_hash_bytes-append low (decimal x.hi) (types_text xs),
      )
      refl

-- A method's signature is the canonical hash of its text.
pub method_signature_lem :
    (name : CString) (return_type : TypeId) (parameters : List TypeId)
    → method_signature name return_type parameters
      ≡ canonical_hash (method_text name return_type parameters) method_signature_domain
unfolding method_signature canonical_hash method_text
method_signature_lem name return_type parameters =
    let begun = canonical_hash_begin method_signature_domain in
    let named = canonical_hash_bytes begun (name_text name) in
    rw
      (
        hash_name-bytes begun name,
        hash_types-bytes named (return_type ∷ parameters),
        canonical_hash_bytes-append begun (name_text name) (types_text (return_type ∷ parameters)),
      )
      refl
