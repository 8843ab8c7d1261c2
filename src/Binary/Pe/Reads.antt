-- ===== src/Binary/Pe/Reads.antt =====
-- The PE adapter reads inside the image.
use abix.Prelude.{
  ℕ, zero, suc, ◌+◌, ◌-◌, ◌*◌, ◌≤◌, ◌≡◌, refl, arith, not, ◌||◌, ◌==◌, ltb, List, length,
}
use abix.Binary.Reader.{in_bounds, read_u16, read_u32, read_name}
use abix.Binary.Reader.Bounds.{
  Meets, met, bind-Meets, if-Meets, option-Meets, IsBytes, in_bounds-le, read_until-Meets,
}
use abix.Binary.Image.{Format}
use abix.Binary.Pe.{PeHeader, SectionRange, pe_header, pe_sections, rva_to_offset}
use abix.Binary.Pe.Exports.{ExportTables, pe_names, pe_directory, pe_exports, parse_pe}
use abix.Binary.Pe.Bounds.{Anything, read32, read16, Headed, pe_header-Headed, pe_sections-Meets}

module _ (image : List ℕ) (bytes : IsBytes image) where
  pe_names-Meets :
      (ranges : List SectionRange) (t : ExportTables) (image_base i left : ℕ)
      → Meets (Anything image bytes) (pe_names image ranges t image_base i left)
  unfolding pe_names Anything
  pe_names-Meets ranges t image_base i zero = met _ tt
  pe_names-Meets ranges t image_base i (suc left) =
      if-Meets (not (in_bounds (t.names_offset + i * 4) 4 (length image))) _ _ (λ _. met _ tt)
        (λ named.
          if-Meets (not (in_bounds (t.ordinals_offset + i * 2) 2 (length image))) _ _
            (λ _. met _ tt)
            (λ numbered.
              bind-Meets (read_u32 image (t.names_offset + i * 4)) _
                (read32 image bytes (t.names_offset + i * 4)
                  (in_bounds-le _ _ _ (ground (arith, named))))
                (λ name_rva _.
                  option-Meets (rva_to_offset image ranges name_rva) _ _ (met _ tt)
                    (λ name_offset mapped.
                      bind-Meets (read_u16 image (t.ordinals_offset + i * 2)) _
                        (read16 image bytes (t.ordinals_offset + i * 2)
                          (in_bounds-le _ _ _ (ground (arith, numbered))))
                        (λ ordinal _.
                          if-Meets
                            (not (in_bounds (t.functions_offset + ordinal * 4) 4 (length image))) _
                            _ (λ _. met _ tt)
                            (λ called.
                              bind-Meets (read_u32 image (t.functions_offset + ordinal * 4)) _
                                (read32 image bytes (t.functions_offset + ordinal * 4)
                                  (in_bounds-le _ _ _ (ground (arith, called))))
                                (λ function_rva _.
                                  bind-Meets
                                    (read_name image (length image - name_offset) name_offset) _
                                    (read_until-Meets image bytes name_offset (length image)
                                      (omega arith))
                                    (λ name _.
                                      bind-Meets (pe_names image ranges t image_base (i + 1) left) _
                                        (pe_names-Meets ranges t image_base (i + 1) left)
                                        (λ rest _. met _ tt)))))))))

  pe_directory-Meets :
      (ranges : List SectionRange) (image_base offset : ℕ)
      → offset + 40 ≤ length image
      → Meets (Anything image bytes) (pe_directory image ranges image_base offset)
  unfolding pe_directory Anything
  pe_directory-Meets ranges image_base offset h =
      bind-Meets (read_u32 image (offset + 16)) _
        (read32 image bytes (offset + 16) (omega (arith, h)))
        (λ ordinal_base _.
          bind-Meets (read_u32 image (offset + 24)) _
            (read32 image bytes (offset + 24) (omega (arith, h)))
            (λ name_count _.
              bind-Meets (read_u32 image (offset + 28)) _
                (read32 image bytes (offset + 28) (omega (arith, h)))
                (λ functions_rva _.
                  bind-Meets (read_u32 image (offset + 32)) _
                    (read32 image bytes (offset + 32) (omega (arith, h)))
                    (λ names_rva _.
                      bind-Meets (read_u32 image (offset + 36)) _
                        (read32 image bytes (offset + 36) (omega (arith, h)))
                        (λ ordinals_rva _.
                          option-Meets (rva_to_offset image ranges names_rva) _ _ (met _ tt)
                            (λ names_offset _.
                              option-Meets (rva_to_offset image ranges functions_rva) _ _ (met _ tt)
                                (λ functions_offset _.
                                  option-Meets (rva_to_offset image ranges ordinals_rva) _ _
                                    (met _ tt)
                                    (λ ordinals_offset _.
                                      pe_names-Meets ranges _ image_base 0 name_count))))))))

  pe_exports-Meets :
      (h : PeHeader) (ranges : List SectionRange)
      → Headed image bytes h
      → Meets (Anything image bytes) (pe_exports image h ranges)
  unfolding pe_exports Headed Anything
  pe_exports-Meets h ranges (room, _) =
      bind-Meets (read_u32 image h.data_directory) _
        (read32 image bytes h.data_directory (omega (arith, room)))
        (λ export_rva _.
          bind-Meets (read_u32 image (h.data_directory + 4)) _
            (read32 image bytes (h.data_directory + 4) (omega (arith, room)))
            (λ export_size _.
              if-Meets (export_rva == 0 || ltb export_size 40) _ _ (λ _. met _ tt)
                (λ _.
                  option-Meets (rva_to_offset image ranges export_rva) _ _ (met _ tt) (λ offset _.
                    if-Meets (in_bounds offset 40 (length image)) _ _
                      (λ inside.
                        pe_directory-Meets ranges h.image_base offset
                          (in_bounds-le offset 40 (length image) inside))
                      (λ _. met _ tt)))))

  -- For every list of bytes the PE adapter reads no byte outside of it and stops, with an error or with a
  -- result that is labelled as PE.
  pub parse_pe-Meets : Meets (λ r. r.target.format ≡ Format.pe) (parse_pe image)
  unfolding parse_pe Headed
  parse_pe-Meets =
      bind-Meets (pe_header image) _ (pe_header-Headed image bytes) (λ h (directory, table).
        bind-Meets (pe_sections image h.image_base h.section_table 0 h.section_count) _
          (pe_sections-Meets image bytes h.image_base h.section_table 0 h.section_count
            h.section_count (omega arith) table)
          (λ (sections, ranges) _.
            bind-Meets (pe_exports image h ranges) _ (pe_exports-Meets h ranges (directory, table))
              (λ exports _. met _ refl)))
