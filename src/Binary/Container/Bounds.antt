-- ===== src/Binary/Container/Bounds.antt =====
-- Regions are parts of their sections, and the choice of the adapter.
use abix.Prelude.{
  ℕ, zero, suc, ◌+◌, ◌^◌, ◌≤◌, ◌<◌, ◌≡◌, refl, arith, Bool, not, ◌&&◌, ◌==◌, leb, if◌then◌else◌,
  List, [], ◌∷◌, ◌++◌, some, length, Bool-cases, inl, inr,
}
use abix.Binary.Reader.{parsed, ◌>>=◌, ◌+₆₄◌, byte, read_u16, read_u32}
use abix.Binary.Reader.Bounds.{
  Meets, gave_up, met, bind-Meets, require-Meets, if-Meets, option-Meets, Meets-weaken, IsBytes,
  in_bounds-le, byte-Meets, read_u16-Meets, read_u32-Meets,
}
use abix.Binary.Image.{Section}
use abix.Binary.Container.{
  BinaryImage, find_region, skip_pe_header, assign, is_pe_format, read_content, read_region,
}

-- The bytes of `content` stand in the image, inside of the extent.
pub record Within (data_ : List ℕ) (offset extent : ℕ) (content : List ℕ) : Type 0 where
  pub before : List ℕ
  pub after : List ℕ
  pub parts : data_ ≡ before ++ (content ++ after)
  pub starts : offset ≤ length before
  pub ends : length before + length content ≤ offset + extent

-- The copy of a range is that range.
record Copied (data_ : List ℕ) (offset extent : ℕ) (content : List ℕ) : Type 0 where
  before : List ℕ
  after : List ℕ
  parts : data_ ≡ before ++ (content ++ after)
  starts : length before ≡ offset
  sized : length content ≡ extent

from_start : {xs ys : List ℕ} (before : List ℕ) → length before ≡ 0 → xs ≡ before ++ ys → xs ≡ ys
from_start [] e f = f
from_start (x ∷ before) e f = absurd (omega (arith, e))

assign-tail :
    (x : ℕ) (xs : List ℕ) (offset n : ℕ) → assign (x ∷ xs) (suc offset) n ≡ assign xs offset n
unfolding assign byte
assign-tail x xs offset zero = refl
assign-tail x xs offset (suc n) =
    let e : suc offset + 1 ≡ suc (offset + 1) = omega arith in
    let tail = assign-tail x xs (offset + 1) n in rw (e, tail) refl

assign-Copied :
    (data_ : List ℕ) (offset n : ℕ)
    → offset + n ≤ length data_
    → Meets (Copied data_ offset n) (assign data_ offset n)
unfolding assign byte
assign-Copied data_ zero zero h =
    met [] (record { before = []; after = data_; parts = refl; starts = refl; sized = refl })
assign-Copied [] zero (suc n) h = absurd (omega (arith, h))
assign-Copied [] (suc offset) n h = absurd (omega (arith, h))
assign-Copied (x ∷ xs) zero (suc n) h =
    let tail : assign (x ∷ xs) 1 n ≡ assign xs 0 n = assign-tail x xs 0 n in
    bind-Meets {P = λ b. b ≡ x} (byte (x ∷ xs) 0) _ (met x refl) (λ b same. rw tail (
      bind-Meets (assign xs 0 n) _ (assign-Copied xs 0 n (omega (arith, h))) (λ rest c.
        met (b ∷ rest) (record {
          before = [];
          after = c.after;
          parts = consed b rest c.after same (from_start c.before c.starts c.parts);
          starts = refl;
          sized = omega (arith, c.sized);
        }))))
  where
    consed :
        (b : ℕ) (rest after : List ℕ) → b ≡ x → xs ≡ rest ++ after → x ∷ xs ≡ b ∷ (rest ++ after)
    consed b rest after e f = cc
assign-Copied (x ∷ xs) (suc offset) n h =
    let tail = assign-tail x xs offset n in
    rw tail (
      Meets-weaken (assign xs offset n) (assign-Copied xs offset n (omega (arith, h))) (λ content c.
        record {
          before = x ∷ c.before;
          after = c.after;
          parts = extended c.before content c.after c.parts;
          starts = omega (arith, c.starts);
          sized = c.sized;
        }))
  where
    extended :
        (before content after : List ℕ)
        → xs ≡ before ++ (content ++ after)
        → x ∷ xs ≡ x ∷ (before ++ (content ++ after))
    extended before content after e = cc

module _ (data_ : List ℕ) (bytes : IsBytes data_) (small : length data_ < 2 ^ 63) where
  skip_pe_header-Meets :
      (offset extent : ℕ)
      → offset + extent ≤ length data_
      → 24 ≤ extent
      → Meets
          (λ (r : ℕ × ℕ). (offset ≤ r.0) × (r.0 + r.1 ≤ offset + extent))
          (skip_pe_header data_ offset extent)
  unfolding skip_pe_header
  skip_pe_header-Meets offset extent inside large =
      bind-Meets (byte data_ offset) _
        (byte-Meets data_ bytes offset (omega (arith, inside, large)))
        (λ a _.
          bind-Meets (byte data_ (offset + 1)) _
            (byte-Meets data_ bytes (offset + 1) (omega (arith, inside, large)))
            (λ b _.
              bind-Meets (byte data_ (offset + 2)) _
                (byte-Meets data_ bytes (offset + 2) (omega (arith, inside, large)))
                (λ i _.
                  bind-Meets (byte data_ (offset + 3)) _
                    (byte-Meets data_ bytes (offset + 3) (omega (arith, inside, large)))
                    (λ x _.
                      if-Meets (not (a == b'A' && b == b'B' && i == b'I' && x == b'X')) _ _
                        (λ _. met _ (omega arith, omega arith))
                        (λ _.
                          bind-Meets (read_u16 data_ (offset + 4)) _
                            (read_u16-Meets data_ bytes (offset + 4) (omega (arith, inside, large)))
                            (λ version _.
                              bind-Meets (read_u16 data_ (offset + 6)) _
                                (read_u16-Meets data_ bytes (offset + 6)
                                  (omega (arith, inside, large)))
                                (λ header_size _.
                                  bind-Meets (read_u32 data_ (offset + 12)) _
                                    (read_u32-Meets data_ bytes (offset + 12)
                                      (omega (arith, inside, large)))
                                    (λ region_offset p.
                                      bind-Meets (read_u32 data_ (offset + 16)) _
                                        (read_u32-Meets data_ bytes (offset + 16)
                                          (omega (arith, inside, large)))
                                        (λ region_size q. met _ (
                                          extent_of version header_size region_offset region_size p
                                            q))))))))))
    where
      extent_of :
          (version header_size region_offset region_size : ℕ)
          → region_offset < 2 ^ 32
          → region_size < 2 ^ 32
          → (λ (r : ℕ × ℕ). (offset ≤ r.0) × (r.0 + r.1 ≤ offset + extent))
              (if version == 1
                  && leb 24 header_size
                  && leb header_size region_offset
                  && leb (region_offset +₆₄ region_size) extent
                then (offset +₆₄ region_offset, region_size)
                else (offset, extent))
      extent_of version header_size region_offset region_size p q =
          elim (Bool-cases (
            version == 1
            && leb 24 header_size
            && leb header_size region_offset
            && leb (region_offset +₆₄ region_size) extent)) [
              | inl fits ↦
                  let room : region_offset + region_size ≤ extent = ground (arith, fits, p, q) in
                  rw fits (omega (arith, room, inside, small), omega (arith, room, inside, small))
              | inr misfit ↦ rw misfit (omega arith, omega arith)
            ]

  content-Meets :
      (is_pe : Bool) (offset extent : ℕ)
      → offset + extent ≤ length data_
      → Meets (Within data_ offset extent) (
          (if is_pe && leb 24 extent
            then skip_pe_header data_ offset extent
            else parsed (offset, extent))
          >>= (λ (r : ℕ × ℕ). assign data_ r.0 r.1))
  content-Meets is_pe offset extent inside =
      bind-Meets {P = λ (r : ℕ × ℕ). (offset ≤ r.0) × (r.0 + r.1 ≤ offset + extent)} _ _
        (if-Meets (is_pe && leb 24 extent) _ _
          (λ large. skip_pe_header-Meets offset extent inside (ground (arith, large)))
          (λ _. met _ (omega arith, omega arith)))
        (λ (start, count) (low, high).
          Meets-weaken (assign data_ start count)
            (assign-Copied data_ start count (omega (arith, high, inside)))
            (λ content c. record {
              before = c.before;
              after = c.after;
              parts = c.parts;
              starts = omega (arith, c.starts, low);
              ends = omega (arith, c.starts, c.sized, high);
            }))

-- For an image of fewer than 2 ^ 63 bytes and any list of sections, in bounds or not: reading a region
-- reads no byte outside of the image and stops; the content is a run of the image's bytes that lies
-- inside of the extent of the section that the lookup found.
pub read_region-Within :
    (image : BinaryImage) (canonical : List ℕ)
    → IsBytes image.data_
    → length image.data_ < 2 ^ 63
    → Meets
        (λ content.
          (section : Section) × (find_region image canonical ≡ some section)
          × Within image.data_ section.file_offset section.file_size content)
        (read_region image canonical)
unfolding read_region read_content
read_region-Within image canonical bytes small =
    option-Meets (find_region image canonical) _ _ (gave_up _) (λ section found.
      require-Meets _ _ _ (λ _. require-Meets _ _ _ (λ inside.
        Meets-weaken _
          (content-Meets image.data_ bytes small (is_pe_format image.result.target.format)
            section.file_offset section.file_size
            (in_bounds-le section.file_offset section.file_size (length image.data_) inside))
          (λ content part. (section, found, part)))))
