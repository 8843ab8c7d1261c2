-- ===== src/Binary/Pe/Bounds.antt =====
-- The headers and the section table of the PE adapter lie inside the image.
use abix.Prelude.{
  ℕ, zero, suc, ◌+◌, ◌*◌, ◌^◌, ◌≤◌, ◌<◌, ◌≡◌, arith, Bool, true, false, not, ◌&&◌, ◌==◌, ltb, List,
  length,
}
use abix.Binary.Reader.{in_bounds, byte, read_u16, read_u32, read_u64, read_name}
use abix.Binary.Reader.Bounds.{
  Meets, met, bind-Meets, require-Meets, if-Meets, IsBytes, in_bounds-le, byte-Meets,
  read_u16-Meets, read_u32-Meets, read_u64-Meets, read_name-Meets,
}
use abix.Binary.Pe.{PeHeader, is_pe, pe_optional, pe_header, pe_section, pe_sections}

module _ (image : List ℕ) (bytes : IsBytes image) where
  unfoldable pub Anything : {A : Type 0} → A → Type 0
  Anything a = Unit

  pub read32 :
      (offset : ℕ) → offset + 4 ≤ length image → Meets (λ v. v < 2 ^ 32) (read_u32 image offset)
  read32 offset h = read_u32-Meets image bytes offset h

  pub read16 :
      (offset : ℕ) → offset + 2 ≤ length image → Meets (λ v. v < 2 ^ 16) (read_u16 image offset)
  read16 offset h = read_u16-Meets image bytes offset h

  pub is_pe-Meets : Meets (λ known. known ≡ true → 0x40 ≤ length image) (is_pe image)
  unfolding is_pe
  is_pe-Meets =
      if-Meets (ltb (length image) 0x40) _ _ (λ _. met _ (λ no. absurd (cc)))
        (λ long.
          let room : 0x40 ≤ length image = ground (arith, long) in
          bind-Meets (byte image 0) _ (byte-Meets image bytes 0 (omega (arith, room))) (λ m _.
            bind-Meets (byte image 1) _ (byte-Meets image bytes 1 (omega (arith, room))) (λ z _.
              if-Meets (not (m == b'M' && z == b'Z')) _ _ (λ _. met _ (λ _. room))
                (λ _.
                  bind-Meets (read_u32 image 0x3C) _ (read32 0x3C (omega (arith, room))) (λ nt _.
                    if-Meets (not (in_bounds nt 4 (length image))) _ _ (λ _. met _ (λ _. room))
                      (λ inside.
                        let tail = in_bounds-le nt 4 (length image) (ground (arith, inside)) in
                        bind-Meets (byte image nt) _
                          (byte-Meets image bytes nt (omega (arith, tail)))
                          (λ p _.
                            bind-Meets (byte image (nt + 1)) _
                              (byte-Meets image bytes (nt + 1) (omega (arith, tail)))
                              (λ e _.
                                bind-Meets (byte image (nt + 2)) _
                                  (byte-Meets image bytes (nt + 2) (omega (arith, tail)))
                                  (λ x _.
                                    bind-Meets (byte image (nt + 3)) _
                                      (byte-Meets image bytes (nt + 3) (omega (arith, tail)))
                                      (λ y _. met _ (λ _. room)))))))))))

  -- The optional header leaves room for the first data directory.
  pe_optional-Meets :
      (is_plus : Bool) (optional optional_size : ℕ)
      → optional + optional_size ≤ length image
      → Meets
          (λ (r : ℕ × ℕ). r.1 + 8 ≤ length image)
          (pe_optional image is_plus optional optional_size)
  unfolding pe_optional
  pe_optional-Meets true optional optional_size h = require-Meets _ _ _ (λ big.
      let room : 120 ≤ optional_size = ground (arith, big) in
      bind-Meets (read_u64 image (optional + 24)) _
        (read_u64-Meets image bytes (optional + 24) (omega (arith, room, h)))
        (λ image_base _. met _ (omega (arith, room, h))))
  pe_optional-Meets false optional optional_size h = require-Meets _ _ _ (λ big.
      let room : 104 ≤ optional_size = ground (arith, big) in
      bind-Meets (read_u32 image (optional + 28)) _
        (read32 (optional + 28) (omega (arith, room, h)))
        (λ image_base _. met _ (omega (arith, room, h))))

  unfoldable pub Headed : PeHeader → Type 0
  Headed h =
      (h.data_directory + 8 ≤ length image)
      × (h.section_table + h.section_count * 40 ≤ length image)

  pub pe_header-Headed : Meets Headed (pe_header image)
  unfolding pe_header Headed
  pe_header-Headed = bind-Meets (is_pe image) _ is_pe-Meets (λ known long.
      require-Meets _ _ _ (λ yes.
        let room = long yes in
        bind-Meets (read_u32 image 0x3C) _ (read32 0x3C (omega (arith, room))) (λ nt _.
          require-Meets _ _ _ (λ coff.
            let file_header = in_bounds-le (nt + 4) 20 (length image) coff in
            bind-Meets (read_u16 image (nt + 4)) _ (read16 (nt + 4) (omega (arith, file_header)))
              (λ machine _.
                bind-Meets (read_u16 image (nt + 6)) _
                  (read16 (nt + 6) (omega (arith, file_header)))
                  (λ count _.
                    bind-Meets (read_u16 image (nt + 20)) _
                      (read16 (nt + 20) (omega (arith, file_header)))
                      (λ optional_size _. require-Meets _ _ _ (λ optional.
                        let inside = in_bounds-le (nt + 24) optional_size (length image) optional in
                        require-Meets _ _ _ (λ two.
                          let two' : 2 ≤ optional_size = ground (arith, two) in
                          bind-Meets (read_u16 image (nt + 24)) _
                            (read16 (nt + 24) (omega (arith, inside, two')))
                            (λ magic _. require-Meets _ _ _ (λ _.
                              bind-Meets
                                (pe_optional image (magic == 0x20B) (nt + 24) optional_size) _
                                (pe_optional-Meets (magic == 0x20B) (nt + 24) optional_size inside)
                                (λ (image_base, directory) low. require-Meets _ _ _ (λ table.
                                  met _ (
                                    low,
                                    in_bounds-le (nt + 24 + optional_size) (count * 40)
                                        (length image) table,
                                  ))))))))))))))

  pe_section-Meets :
      (image_base header : ℕ)
      → header + 40 ≤ length image
      → Meets Anything (pe_section image image_base header)
  unfolding pe_section Anything
  pe_section-Meets image_base header h =
      bind-Meets (read_u32 image (header + 8)) _ (read32 (header + 8) (omega (arith, h)))
        (λ virtual_size _.
          bind-Meets (read_u32 image (header + 12)) _ (read32 (header + 12) (omega (arith, h)))
            (λ virtual_address _.
              bind-Meets (read_u32 image (header + 16)) _ (read32 (header + 16) (omega (arith, h)))
                (λ raw_size _.
                  bind-Meets (read_u32 image (header + 20)) _
                    (read32 (header + 20) (omega (arith, h)))
                    (λ raw_offset _.
                      bind-Meets (read_name image 8 header) _
                        (read_name-Meets image bytes 8 header (omega (arith, h)))
                        (λ name _.
                          bind-Meets (read_u32 image (header + 36)) _
                            (read32 (header + 36) (omega (arith, h))) (λ flags _. met _ tt))))))

  pub pe_sections-Meets :
      (image_base table i left count : ℕ)
      → i + left ≡ count
      → table + count * 40 ≤ length image
      → Meets Anything (pe_sections image image_base table i left)
  unfolding pe_sections Anything
  pe_sections-Meets image_base table i zero count e h = met _ tt
  pe_sections-Meets image_base table i (suc left) count e h =
      bind-Meets (pe_section image image_base (table + i * 40)) _
        (pe_section-Meets image_base (table + i * 40) (omega (arith, e, h)))
        (λ (section, range) _.
          bind-Meets (pe_sections image image_base table (i + 1) left) _
            (pe_sections-Meets image_base table (i + 1) left count (omega (arith, e)) h)
            (λ rest _. met _ tt))
