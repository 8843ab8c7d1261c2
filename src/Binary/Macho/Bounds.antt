-- ===== src/Binary/Macho/Bounds.antt =====
-- The walk of the load commands reads inside the image.
use abix.Prelude.{
  ℕ, zero, suc, ◌+◌, ◌*◌, ◌^◌, ◌≤◌, ◌<◌, ◌≡◌, arith, Bool, true, false, ◌&&◌, ◌==◌, leb, List,
  length,
}
use abix.Binary.Reader.{◌+₆₄◌, read_u32, read_name}
use abix.Binary.Reader.Bounds.{
  Meets, met, bind-Meets, require-Meets, if-Meets, Meets-weaken, IsBytes, read_u32-Meets,
  read_u64-Meets, read_name-Meets,
}
use abix.Binary.Macho.{
  Walk, pick, read_word, macho_section, macho_sections, macho_segment, macho_symtab, macho_command,
  macho_commands,
}

-- The offsets of a section's and a segment's fields lie inside of it, in both widths.
section_fields :
    (b : Bool)
    → (32 + pick b 8 4 ≤ pick b 80 68)
      × (pick b 40 36 + pick b 8 4 ≤ pick b 80 68)
      × (pick b 48 40 + 4 ≤ pick b 80 68)
      × (pick b 52 44 + 4 ≤ pick b 80 68)
      × (pick b 64 56 + 4 ≤ pick b 80 68)
section_fields true = (omega arith, omega arith, omega arith, omega arith, omega arith)
section_fields false = (omega arith, omega arith, omega arith, omega arith, omega arith)

segment_fields : (b : Bool) → (24 + pick b 8 4 ≤ pick b 72 56) × (pick b 64 48 + 4 ≤ pick b 72 56)
segment_fields true = (omega arith, omega arith)
segment_fields false = (omega arith, omega arith)

section_room :
    (b : Bool) (s count : ℕ) → s < count → s * pick b 80 68 + pick b 80 68 ≤ count * pick b 80 68
section_room true s count h = omega (arith, h)
section_room false s count h = omega (arith, h)

module _ (image : List ℕ) (bytes : IsBytes image) (small : length image < 2 ^ 63) where
  unfoldable pub Anything : {A : Type 0} → A → Type 0
  Anything a = Unit

  pub read_word-Meets :
      (is64 : Bool) (offset : ℕ)
      → offset + pick is64 8 4 ≤ length image
      → Meets Anything (read_word image is64 offset)
  unfolding read_word Anything
  read_word-Meets true offset h = Meets-weaken _ (read_u64-Meets image bytes offset h) (λ _ _. tt)
  read_word-Meets false offset h = Meets-weaken _ (read_u32-Meets image bytes offset h) (λ _ _. tt)

  macho_section-Meets :
      (is64 : Bool) (header : ℕ)
      → header + pick is64 80 68 ≤ length image
      → Meets Anything (macho_section image is64 header)
  unfolding macho_section Anything
  macho_section-Meets is64 header h =
      let (f32, f40, f48, f52, f64) = section_fields is64 in
      bind-Meets (read_name image 16 header) _
        (read_name-Meets image bytes 16 header (omega (arith, h, f64, f32)))
        (λ name _.
          bind-Meets (read_name image 16 (header + 16)) _
            (read_name-Meets image bytes 16 (header + 16) (omega (arith, h, f64, f32)))
            (λ segment _.
              bind-Meets (read_word image is64 (header + 32)) _
                (read_word-Meets is64 (header + 32) (omega (arith, h, f32)))
                (λ address _.
                  bind-Meets (read_word image is64 (header + pick is64 40 36)) _
                    (read_word-Meets is64 (header + pick is64 40 36) (omega (arith, h, f40)))
                    (λ size _.
                      bind-Meets (read_u32 image (header + pick is64 48 40)) _
                        (read_u32-Meets image bytes (header + pick is64 48 40)
                          (omega (arith, h, f48)))
                        (λ file_offset _.
                          bind-Meets (read_u32 image (header + pick is64 52 44)) _
                            (read_u32-Meets image bytes (header + pick is64 52 44)
                              (omega (arith, h, f52)))
                            (λ alignment _.
                              bind-Meets (read_u32 image (header + pick is64 64 56)) _
                                (read_u32-Meets image bytes (header + pick is64 64 56)
                                  (omega (arith, h, f64)))
                                (λ flags _. met _ tt)))))))

  macho_sections-Meets :
      (is64 : Bool) (start s left count : ℕ)
      → s + left ≡ count
      → start + count * pick is64 80 68 ≤ length image
      → Meets Anything (macho_sections image is64 start s left)
  unfolding macho_sections Anything
  macho_sections-Meets is64 start s zero count e h = met _ tt
  macho_sections-Meets is64 start s (suc left) count e h =
      let room = section_room is64 s count (omega (arith, e)) in
      bind-Meets (macho_section image is64 (start + s * pick is64 80 68)) _
        (macho_section-Meets is64 (start + s * pick is64 80 68) (omega (arith, room, h)))
        (λ section _.
          bind-Meets (macho_sections image is64 start (s + 1) left) _
            (macho_sections-Meets is64 start (s + 1) left count (omega (arith, e)) h)
            (λ rest _. met _ tt))

  -- The name of a segment takes 16 bytes, which a command of 8 bytes does not have.
  macho_segment-Meets :
      (is64 : Bool) (cursor cmdsize : ℕ) (w : Walk)
      → cursor + 24 ≤ length image
      → cursor + cmdsize ≤ length image
      → Meets Anything (macho_segment image is64 cursor cmdsize w)
  unfolding macho_segment Anything
  macho_segment-Meets is64 cursor cmdsize w named inside =
      let (f24, f64) = segment_fields is64 in
      bind-Meets (read_name image 16 (cursor + 8)) _
        (read_name-Meets image bytes 16 (cursor + 8) (omega (arith, named)))
        (λ segment_name _. require-Meets _ _ _ (λ enough.
          let whole : pick is64 72 56 ≤ cmdsize = ground (arith, enough) in
          bind-Meets (read_word image is64 (cursor + 24)) _
            (read_word-Meets is64 (cursor + 24) (omega (arith, whole, inside, f24)))
            (λ base _.
              bind-Meets (read_u32 image (cursor + pick is64 64 48)) _
                (read_u32-Meets image bytes (cursor + pick is64 64 48)
                  (omega (arith, whole, inside, f64)))
                (λ count _. require-Meets _ _ _ (λ fits.
                  let all : pick is64 72 56 + count * pick is64 80 68 ≤ cmdsize = le_of fits in
                  bind-Meets (macho_sections image is64 (cursor + pick is64 72 56) 0 count) _
                    (macho_sections-Meets is64 (cursor + pick is64 72 56) 0 count count
                      (omega arith) (omega (arith, all, inside)))
                    (λ sections _. met _ tt))))))
    where
      le_of : {a b : ℕ} → leb a b ≡ true → a ≤ b
      le_of h = ground (arith, h)

  macho_symtab-Meets :
      (cursor : ℕ) (w : Walk)
      → cursor + 24 ≤ length image
      → Meets Anything (macho_symtab image cursor w)
  unfolding macho_symtab Anything
  macho_symtab-Meets cursor w h =
      bind-Meets (read_u32 image (cursor + 8)) _
        (read_u32-Meets image bytes (cursor + 8) (omega (arith, h)))
        (λ symoff _.
          bind-Meets (read_u32 image (cursor + 12)) _
            (read_u32-Meets image bytes (cursor + 12) (omega (arith, h)))
            (λ nsyms _.
              bind-Meets (read_u32 image (cursor + 16)) _
                (read_u32-Meets image bytes (cursor + 16) (omega (arith, h)))
                (λ stroff _.
                  bind-Meets (read_u32 image (cursor + 20)) _
                    (read_u32-Meets image bytes (cursor + 20) (omega (arith, h)))
                    (λ strsize _. met _ tt))))

  macho_command-Meets :
      (is64 : Bool) (cursor cmd cmdsize : ℕ) (w : Walk)
      → cursor + 24 ≤ length image
      → cursor + cmdsize ≤ length image
      → Meets Anything (macho_command image is64 cursor cmd cmdsize w)
  unfolding macho_command Anything
  macho_command-Meets is64 cursor cmd cmdsize w named inside =
      if-Meets (cmd == 2 && leb 24 cmdsize) _ _ (λ _. macho_symtab-Meets cursor w named)
        (λ _.
          if-Meets (cmd == pick is64 0x19 1) _ _
            (λ _. macho_segment-Meets is64 cursor cmdsize w named inside) (λ _. met _ tt))

  -- The walk stays below the commands' end, 16 bytes before the end of the image.
  pub macho_commands-Meets :
      (is64 : Bool) (end cursor left : ℕ) (w : Walk)
      → end + 16 ≤ length image
      → cursor ≤ end
      → Meets Anything (macho_commands image is64 end cursor left w)
  unfolding macho_commands Anything
  macho_commands-Meets is64 end cursor zero w room low = met _ tt
  macho_commands-Meets is64 end cursor (suc left) w room low = require-Meets _ _ _ (λ head.
      let head' : cursor + 8 ≤ end = ground (arith, head, low, room, small) in
      bind-Meets (read_u32 image cursor) _
        (read_u32-Meets image bytes cursor (omega (arith, head', room)))
        (λ cmd _.
          bind-Meets (read_u32 image (cursor + 4)) _
            (read_u32-Meets image bytes (cursor + 4) (omega (arith, head', room)))
            (λ cmdsize few. require-Meets _ _ _ (λ sized.
              let tail : cursor + cmdsize ≤ end = ground (arith, sized, few, low, room, small) in
              let next : cursor +₆₄ cmdsize ≤ end = omega (arith, tail, room, small) in
              bind-Meets (macho_command image is64 cursor cmd cmdsize w) _
                (macho_command-Meets is64 cursor cmd cmdsize w (omega (arith, head', room))
                  (omega (arith, tail, room)))
                (λ v _. macho_commands-Meets is64 end (cursor +₆₄ cmdsize) left v room next)))))
