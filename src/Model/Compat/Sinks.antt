-- ===== src/Model/Compat/Sinks.antt =====
-- What the two sinks make of the bytes that they are fed, and so the encoder and the digests.
use native.Mathlib.Nat.{add-zero, zero-add}
use abix.Prelude.{
  ℕ, ◌+◌, ◌≤◌, ◌<◌, ◌≡◌, ◌≢◌, refl, ap, arith, true, false, List, [], ◌∷◌, ◌++◌, none, some, length,
  length-append, set, drop, append_assoc,
}
use abix.Util.Hash.{zero_hash, canonical_hash_byte, canonical_hash_bytes, canonical_hash}
use abix.Model.Abi.{TypeId, TypeLayout, Field, Pointer}
use abix.Model.Compat.{
  LayoutContext, LayoutByteSink, byte_put, LayoutHashSink, hash_put, encode_canonical_layout,
  canonical_layout_hash, canonical_layout_domain,
}
use abix.Model.Compat.Encoding.{cle_bytes, fields_of, feed, visit-feed, visit-null}

-- The buffer after the bytes were written from `i` on.
overwrite : List ℕ → ℕ → List ℕ → List ℕ
overwrite out i [] = out
overwrite out i (b ∷ bs) = overwrite (set out i b) (i + 1) bs

set-length :
    (pre : List ℕ) (x b : ℕ) (post : List ℕ)
    → set (pre ++ x ∷ post) (length pre) b ≡ pre ++ b ∷ post
set-length [] x b post = refl
set-length (p ∷ pre) x b post = ap (λ l. p ∷ l) (set-length pre x b post)

overwrite-append :
    (pre out bs : List ℕ)
    → length bs ≤ length out
    → overwrite (pre ++ out) (length pre) bs ≡ pre ++ (bs ++ drop (length bs) out)
unfolding overwrite
overwrite-append pre out [] h = refl
overwrite-append pre [] (b ∷ bs) h = absurd (omega arith)
overwrite-append pre (x ∷ out) (b ∷ bs) h =
    let size : length (pre ++ b ∷ []) ≡ length pre + 1 = length-append pre (b ∷ []) in
    rw (set-length pre x b out) (
      rw (append_assoc, size, append_assoc) at
        (overwrite-append (pre ++ b ∷ []) out bs (omega arith)))

byte_feed-fits :
    (bs : List ℕ) (k : LayoutByteSink)
    → k.size + length bs ≤ k.capacity
    → feed byte_put bs k
      ≡ (record k { out = overwrite k.out k.size bs; size = k.size + length bs }, true)
unfolding feed byte_put overwrite
byte_feed-fits [] k h = rw (add-zero k.size)
byte_feed-fits (b ∷ bs) k h =
    ground (arith, byte_feed-fits bs (record k { out = set k.out k.size b; size = k.size + 1 }))

byte_feed-full :
    (bs : List ℕ) (k : LayoutByteSink)
    → k.capacity < k.size + length bs
    → k.size ≤ k.capacity
    → (feed byte_put bs k).1 ≡ false
unfolding feed byte_put
byte_feed-full [] k h le = absurd (omega arith)
byte_feed-full (b ∷ bs) k h le =
    ground (arith, byte_feed-full bs (record k { out = set k.out k.size b; size = k.size + 1 }))

hash_feed :
    (bs : List ℕ) (s : LayoutHashSink) → feed hash_put bs s ≡ (canonical_hash_bytes s bs, true)
unfolding feed hash_put canonical_hash_bytes
hash_feed [] s = refl
hash_feed (b ∷ bs) s = hash_feed bs (canonical_hash_byte s b)

module _ (c : LayoutContext) (t : TypeId) (l : TypeLayout) (p : Pointer Field) where
  module _ (fs : List Field) (readable : fields_of l.field_count p ≡ some fs) where
    -- Where the capacity covers the canonical bytes, the encoder writes them at the start of the
    -- buffer, leaves the rest of the buffer as it was, and returns their number.
    pub encode-fits :
        (out : List ℕ) (capacity : ℕ)
        → length (cle_bytes c t l fs) ≤ capacity
        → capacity ≤ length out
        → encode_canonical_layout c t l p out capacity ≡ (
          length (cle_bytes c t l fs),
          cle_bytes c t l fs ++ drop (length (cle_bytes c t l fs)) out,
        )
    unfolding encode_canonical_layout
    encode-fits out capacity fits room =
        let start : LayoutByteSink = record { out = out; capacity = capacity; size = 0 } in
        rw
          (
            visit-feed byte_put c t l p fs readable,
            byte_feed-fits (cle_bytes c t l fs) start (omega arith),
            zero-add,
          )
          (ap (λ b. (length (cle_bytes c t l fs), b))
            (overwrite-append [] out (cle_bytes c t l fs) (omega arith)))

    -- Where the capacity is less than the number of canonical bytes, the encoder returns 0.
    pub encode-full :
        (out : List ℕ) (capacity : ℕ)
        → capacity < length (cle_bytes c t l fs)
        → (encode_canonical_layout c t l p out capacity).0 ≡ 0
    unfolding encode_canonical_layout
    encode-full out capacity full =
        let start : LayoutByteSink = record { out = out; capacity = capacity; size = 0 } in
        rw (
          visit-feed byte_put c t l p fs readable,
          byte_feed-full (cle_bytes c t l fs) start (omega arith) (omega arith),
        )

    -- The layout hash is the canonical hash, in the layout domain, of the canonical bytes.
    pub canonical_layout_hash_lem :
        canonical_layout_hash c t l p ≡ canonical_hash (cle_bytes c t l fs) canonical_layout_domain
    unfolding canonical_layout_hash canonical_hash
    canonical_layout_hash_lem =
        rw (visit-feed hash_put c t l p fs readable, hash_feed (cle_bytes c t l fs))

module _ (c : LayoutContext) (t : TypeId) (l : TypeLayout) where
  -- A null field pointer with a field count other than 0 is refused: the encoder returns 0
  -- whatever the capacity, and the layout hash is the zero hash.
  pub refused-null :
      l.field_count ≢ 0
      → (out : List ℕ) (capacity : ℕ)
      → ((encode_canonical_layout c t l none out capacity).0 ≡ 0)
        × (canonical_layout_hash c t l none ≡ zero_hash)
  unfolding encode_canonical_layout canonical_layout_hash
  refused-null h out capacity =
      let start : LayoutByteSink = record { out = out; capacity = capacity; size = 0 } in
      (rw (visit-null byte_put c t l start h), rw (visit-null hash_put c t l _ h))
