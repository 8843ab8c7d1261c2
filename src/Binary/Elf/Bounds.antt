-- ===== src/Binary/Elf/Bounds.antt =====
-- The ELF adapter reads inside the image and ends.
use abix.Prelude.{
  ℕ, zero, suc, ◌+◌, ◌-◌, ◌*◌, ◌/◌, ◌^◌, ◌≤◌, ◌<◌, ◌≡◌, refl, subst, arith, not, ◌&&◌, ◌||◌, ◌==◌,
  leb, List, [], ◌∷◌, length,
}
use abix.Model.Abi.{codes}
use abix.Binary.Reader.{parsed, ◌+₆₄◌, byte, read_u16, read_u32, read_u64, read_name}
use abix.Binary.Reader.Bounds.{
  Meets, met, bind-Meets, bind_eq-Meets, require-Meets, if-Meets, Meets-weaken, IsBytes,
  in_bounds-le, byte-Meets, read_u16-Meets, read_u32-Meets, read_u64-Meets, read_until-Meets,
}
use abix.Binary.Image.{Format}
use abix.Binary.Elf.{
  ElfHeader, elf_header, header_at, NameTable, elf_names, name_of, elf_target, elf_section,
  elf_sections, elf_symbol, is_elf, same_bytes,
}

module _ (image : List ℕ) (bytes : IsBytes image) (small : length image < 2 ^ 63) where
  -- What the header's tests leave.
  pub record Fits (h : ElfHeader) : Type 0 where
    pub table : h.shoff + 64 * h.shnum ≤ length image
    pub names : h.shstrndx < h.shnum
    pub count : h.shnum < 2 ^ 16
    pub room : 0x40 ≤ length image
    pub origin : read_u64 image 0x28 ≡ parsed h.shoff
    pub number : read_u16 image 0x3C ≡ parsed h.shnum

  same_bytes-Meets :
      (xs : List ℕ) (at : ℕ)
      → at + length xs ≤ length image
      → Meets (λ known. Unit {0}) (same_bytes image xs at)
  unfolding same_bytes
  same_bytes-Meets [] at room = met _ tt
  same_bytes-Meets (x ∷ xs) at room =
      bind-Meets (byte image at) _ (byte-Meets image bytes at (omega (arith, room))) (λ b _.
        if-Meets (b == x) _ _ (λ _. same_bytes-Meets xs (at + 1) (omega (arith, room)))
          (λ _. met _ tt))

  pub is_elf-Meets : Meets (λ known. Unit {0}) (is_elf image)
  unfolding is_elf
  is_elf-Meets =
      if-Meets (leb 4 (length image)) _ _
        (λ long.
          let four : 4 ≤ length image = ground (arith, long) in
          same_bytes-Meets (0x7f ∷ codes "ELF") 0 (omega (arith, four)))
        (λ _. met _ tt)

  pub elf_header-Fits : Meets Fits (elf_header image)
  unfolding elf_header
  elf_header-Fits = bind-Meets (is_elf image) _ is_elf-Meets (λ known _. require-Meets _ _ _ (λ _.
      require-Meets _ _ _ (λ room.
        bind-Meets (byte image 4) _ (byte-Meets image bytes 4 (ground (arith, room))) (λ class _.
          require-Meets _ _ _ (λ _.
            bind-Meets (byte image 5) _ (byte-Meets image bytes 5 (ground (arith, room)))
              (λ order _. require-Meets _ _ _ (λ _. require-Meets _ _ _ (λ full.
                let size : 0x40 ≤ length image = ground (arith, full) in
                bind_eq-Meets (read_u64 image 0x28) _
                  (read_u64-Meets image bytes 0x28 (omega (arith, size)))
                  (λ shoff origin _.
                    bind-Meets (read_u16 image 0x3A) _
                      (read_u16-Meets image bytes 0x3A (omega (arith, size)))
                      (λ shentsize _.
                        bind_eq-Meets (read_u16 image 0x3C) _
                          (read_u16-Meets image bytes 0x3C (omega (arith, size)))
                          (λ shnum number few.
                            bind-Meets (read_u16 image 0x3E) _
                              (read_u16-Meets image bytes 0x3E (omega (arith, size)))
                              (λ shstrndx _. require-Meets _ _ _ (λ fixed.
                                require-Meets _ _ _ (λ some. require-Meets _ _ _ (λ inside.
                                  require-Meets _ _ _ (λ named.
                                    let width : shentsize ≡ 64 = ground (arith, fixed) in
                                    met _ record {
                                      table =
                                          subst (λ w. shoff + w * shnum ≤ length image) width
                                            (in_bounds-le shoff (shentsize * shnum) (length image)
                                              inside);
                                      names = ground (arith, named);
                                      count = few;
                                      room = size;
                                      origin = origin;
                                      number = number;
                                    }))))))))))))))))

  pub header_at-le :
      (h : ElfHeader) (i : ℕ) → Fits h → i < h.shnum → header_at image h.shoff i + 64 ≤ length image
  header_at-le h i f low = omega (arith, f.table, f.count, low, small)

  unfoldable pub TableFits : NameTable → Type 0
  TableFits t = t.offset + t.size ≤ length image

  pub elf_names-Fits : (h : ElfHeader) → Fits h → Meets TableFits (elf_names image h)
  unfolding elf_names TableFits
  elf_names-Fits h f =
      let low = header_at-le h h.shstrndx f f.names in
      bind-Meets (read_u64 image (header_at image h.shoff h.shstrndx + 24)) _
        (read_u64-Meets image bytes (header_at image h.shoff h.shstrndx + 24) (omega (arith, low)))
        (λ offset _.
          bind-Meets (read_u64 image (header_at image h.shoff h.shstrndx + 32)) _
            (read_u64-Meets image bytes (header_at image h.shoff h.shstrndx + 32)
              (omega (arith, low)))
            (λ size _.
              require-Meets _ _ _
                (λ inside. met _ (in_bounds-le offset size (length image) inside))))

  unfoldable pub Anything : {A : Type 0} → A → Type 0
  Anything a = Unit

  -- A name in a table that lies in the image.
  pub name-Meets :
      (t : NameTable) (cursor : ℕ)
      → TableFits t
      → Meets Anything (read_name image ((t.offset +₆₄ t.size) - cursor) cursor)
  unfolding TableFits Anything
  name-Meets t cursor f =
      let end = t.offset +₆₄ t.size in
      Meets-weaken (read_name image (end - cursor) cursor)
        (read_until-Meets image bytes cursor end (omega (arith, f, small))) (λ name _. tt)

  pub name_of-Meets : (t : NameTable) (o : ℕ) → TableFits t → Meets Anything (name_of image t o)
  unfolding name_of Anything
  name_of-Meets t o f =
      if-Meets (leb t.size o) _ _ (λ _. met [] tt) (λ _. name-Meets t (t.offset +₆₄ o) f)

  pub elf_target-Meets :
      {h : ElfHeader} → Fits h → Meets (λ t. t.format ≡ Format.elf) (elf_target image)
  unfolding elf_target
  elf_target-Meets f =
      bind-Meets (byte image 7) _ (byte-Meets image bytes 7 (omega (arith, f.room))) (λ abi _.
        bind-Meets (read_u16 image 0x12) _ (read_u16-Meets image bytes 0x12 (omega (arith, f.room)))
          (λ machine _. met _ refl))

  pub elf_section-Meets :
      (h : ElfHeader) (t : NameTable) (i : ℕ)
      → Fits h
      → TableFits t
      → i < h.shnum
      → Meets Anything (elf_section image h t i)
  unfolding elf_section Anything
  elf_section-Meets h t i f g low =
      let at_i = header_at image h.shoff i in
      let room = header_at-le h i f low in
      bind-Meets (read_u32 image (at_i + 4)) _
        (read_u32-Meets image bytes (at_i + 4) (omega (arith, room)))
        (λ type _.
          bind-Meets (read_u64 image (at_i + 8)) _
            (read_u64-Meets image bytes (at_i + 8) (omega (arith, room)))
            (λ flags _.
              bind-Meets (read_u64 image (at_i + 16)) _
                (read_u64-Meets image bytes (at_i + 16) (omega (arith, room)))
                (λ address _.
                  bind-Meets (read_u64 image (at_i + 24)) _
                    (read_u64-Meets image bytes (at_i + 24) (omega (arith, room)))
                    (λ file_offset _.
                      bind-Meets (read_u64 image (at_i + 32)) _
                        (read_u64-Meets image bytes (at_i + 32) (omega (arith, room)))
                        (λ size _.
                          bind-Meets (read_u64 image (at_i + 48)) _
                            (read_u64-Meets image bytes (at_i + 48) (omega (arith, room)))
                            (λ alignment _.
                              bind-Meets (read_u32 image at_i) _
                                (read_u32-Meets image bytes at_i (omega (arith, room)))
                                (λ name_offset _.
                                  bind-Meets (name_of image t name_offset) _
                                    (name_of-Meets t name_offset g) (λ name _. met _ tt))))))))

  pub elf_sections-Meets :
      (h : ElfHeader) (t : NameTable) (i left : ℕ)
      → Fits h
      → TableFits t
      → i + left ≤ h.shnum
      → Meets (λ ss. length ss ≡ left) (elf_sections image h t i left)
  unfolding elf_sections
  elf_sections-Meets h t i zero f g low = met [] refl
  elf_sections-Meets h t i (suc left) f g low =
      bind-Meets (elf_section image h t i) _ (elf_section-Meets h t i f g (omega (arith, low)))
        (λ s _.
          bind-Meets (elf_sections image h t (i + 1) left) _
            (elf_sections-Meets h t (i + 1) left f g (omega (arith, low)))
            (λ ss n. met _ (omega (arith, n))))

  pub elf_symbol-Meets :
      (t : NameTable) (entry : ℕ)
      → TableFits t
      → entry + 24 ≤ length image
      → Meets Anything (elf_symbol image t entry)
  unfolding elf_symbol Anything
  elf_symbol-Meets t entry g room =
      bind-Meets (read_u32 image entry) _ (read_u32-Meets image bytes entry (omega (arith, room)))
        (λ st_name _.
          bind-Meets (byte image (entry + 4)) _
            (byte-Meets image bytes (entry + 4) (omega (arith, room)))
            (λ st_info _.
              bind-Meets (read_u16 image (entry + 6)) _
                (read_u16-Meets image bytes (entry + 6) (omega (arith, room)))
                (λ st_shndx _.
                  bind-Meets (read_u64 image (entry + 8)) _
                    (read_u64-Meets image bytes (entry + 8) (omega (arith, room)))
                    (λ st_value _.
                      if-Meets
                        (st_shndx == 0
                          || st_name == 0
                          || not (st_info / 16 == 1) && not (st_info / 16 == 2))
                        _ _ (λ _. met _ tt)
                        (λ _.
                          bind-Meets
                            (read_name image ((t.offset +₆₄ t.size) - (t.offset +₆₄ st_name))
                              (t.offset +₆₄ st_name))
                            _ (name-Meets t (t.offset +₆₄ st_name) g) (λ name _. met _ tt))))))
