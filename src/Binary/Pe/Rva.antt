-- ===== src/Binary/Pe/Rva.antt =====
-- The translation of relative virtual addresses to offsets in the file.
use abix.Prelude.{
  ℕ, ◌+◌, ◌-◌, ◌%◌, ◌^◌, ◌≤◌, ◌<◌, ◌≡◌, arith, ◌||◌, leb, ltb, if◌then◌else◌, List, [], ◌∷◌, Option,
  none, some, length, Bool-cases, inl, inr,
}
use abix.Binary.Reader.{in_bounds}
use abix.Binary.Reader.Bounds.{in_bounds-le}
use abix.Binary.Pe.{SectionRange, rva_to_offset}

-- The offset lies in the file part of one of the ranges, which holds the address, and in the image.
pub data Mapped (size rva offset : ℕ) : List SectionRange → Type 0 where
  in_range :
      (range : SectionRange) (ranges : List SectionRange)
      → range.rva ≤ rva
      → rva - range.rva < range.raw_size
      → offset ≡ range.raw_offset + (rva - range.rva)
      → offset + 1 ≤ size
      → Mapped size rva offset (range ∷ ranges)
  in_later :
      (range : SectionRange) (ranges : List SectionRange)
      → Mapped size rva offset ranges
      → Mapped size rva offset (range ∷ ranges)

-- The offset that a relative virtual address translates to lies in the file part of a section whose
-- range holds the address, at the address' distance from the range's start, and inside the image.
pub rva_to_offset-Mapped :
    (image : List ℕ) (ranges : List SectionRange) (rva offset : ℕ)
    → rva_to_offset image ranges rva ≡ some offset
    → Mapped (length image) rva offset ranges
unfolding rva_to_offset
rva_to_offset-Mapped image [] rva offset h = absurd (cc)
rva_to_offset-Mapped image (range ∷ ranges) rva offset h =
    let span =
      if ltb range.raw_size range.virtual_size then range.virtual_size else range.raw_size in
    let delta = rva - range.rva in
    elim (Bool-cases (ltb rva range.rva || leb ((range.rva + span) % 2 ^ 32) rva)) [
      | inl outside ↦
          in_later range ranges (rva_to_offset-Mapped image ranges rva offset (rw outside at h))
      | inr holds ↦ elim (Bool-cases (leb range.raw_size delta)) [
        | inl tail ↦ absurd (nothing (rw (holds, tail) at h))
        | inr stored ↦ elim (Bool-cases (in_bounds (range.raw_offset + delta) 1 (length image))) [
          | inl inside ↦
              let same : range.raw_offset + delta ≡ offset =
                found (rw (holds, stored, inside) at h) in
              let room = in_bounds-le (range.raw_offset + delta) 1 (length image) inside in
              in_range range ranges (ground (arith, holds)) (ground (arith, stored)) (cc)
                (omega (arith, same, room))
          | inr past ↦ absurd (nothing (rw (holds, stored, past) at h))
        ]
      ]
    ]
  where
    nothing : ◌≡◌ {A = Option ℕ} none (some offset) → ⊥
    nothing e = absurd (cc)

    found : {x y : ℕ} → ◌≡◌ {A = Option ℕ} (some x) (some y) → x ≡ y
    found e = cc
