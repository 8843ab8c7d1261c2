-- ===== src/Binary/Elf/Exports.antt =====
-- The symbols of the ELF adapter, and the adapter as a whole.
use abix.Model.Abi.{codes}
use abix.Prelude.{
  Bool-cases, Option-cases, inl, inr, ℕ, zero, suc, ◌+◌, ◌-◌, ◌^◌, ◌≤◌, ◌<◌, ◌≡◌, arith, true, ◌&&◌,
  ◌==◌, leb, ltb, if◌then◌else◌, List, [], ◌∷◌, Option, some, length,
}
use abix.Binary.Reader.{parsed, ◌+₆₄◌, in_bounds, read_u16, read_u32, read_u64}
use abix.Binary.Reader.Bounds.{
  Meets, met, bind-Meets, bind_eq-Meets, if-Meets, IsBytes, in_bounds-le, read_u32-Meets,
  read_u64-Meets,
}
use abix.Binary.Image.{Section, Format, same_text}
use abix.Binary.Elf.{
  ElfHeader, elf_header, header_at, NameTable, elf_names, elf_target, elf_sections, find_named,
  elf_symbol, elf_symbols, elf_dynsym, elf_exports, parse_elf,
}
use abix.Binary.Elf.Bounds.{
  Fits, elf_header-Fits, header_at-le, TableFits, elf_names-Fits, Anything, elf_target-Meets,
  elf_sections-Meets, elf_symbol-Meets,
}

find_named-lt :
    (name : List ℕ) (i : ℕ) (ss : List Section) (j : ℕ) (s : Section)
    → find_named name i ss ≡ some (j, s)
    → j < i + length ss
unfolding find_named
find_named-lt name i [] j s h = absurd (cc)
find_named-lt name i (x ∷ xs) j s h = elim (Bool-cases (same_text x.name name)) [
  | inl hit ↦ let e : j ≡ i = found_here (rw hit at h) in omega (arith, e)
  | inr miss ↦ omega (arith, find_named-lt name (i + 1) xs j s (rw miss at h))
]
  where
    found_here : ◌≡◌ {A = Option (ℕ × Section)} (some (i, x)) (some (j, s)) → j ≡ i
    found_here e = cc

module _ (image : List ℕ) (bytes : IsBytes image) (small : length image < 2 ^ 63) where
  -- With a step below 2 ^ 63 the offset does not wrap, and the fuel of the loop is enough.
  elf_symbols-Meets :
      (t : NameTable) (dynsym : Section) (step fuel off : ℕ)
      → TableFits image bytes small t
      → dynsym.file_offset + dynsym.file_size ≤ length image
      → 0 < step
      → step < 2 ^ 63
      → off < 2 ^ 64 - 24
      → 0 < fuel
      → dynsym.file_size + 2 ≤ off + fuel
      → Meets (Anything image bytes small) (elf_symbols image t dynsym step fuel off)
  unfolding elf_symbols Anything
  elf_symbols-Meets t dynsym step zero off g inside pos low no_wrap fuelled enough =
      absurd (omega (arith, fuelled))
  elf_symbols-Meets t dynsym step (suc fuel) off g inside pos low no_wrap fuelled enough =
      if-Meets (leb (off +₆₄ 24) dynsym.file_size) _ _
        (λ more.
          let more' : off + 24 ≤ dynsym.file_size = ground (arith, more, no_wrap) in
          let entry : (dynsym.file_offset +₆₄ off) + 24 ≤ length image =
            omega (arith, more', inside, small) in
          let next : off +₆₄ step ≡ off + step = omega (arith, more', inside, small, low) in
          bind-Meets (elf_symbol image t (dynsym.file_offset +₆₄ off)) _
            (elf_symbol-Meets image bytes small t (dynsym.file_offset +₆₄ off) g entry)
            (λ found _.
              bind-Meets (elf_symbols image t dynsym step fuel (off +₆₄ step)) _
                (elf_symbols-Meets t dynsym step fuel (off +₆₄ step) g inside pos low
                  (omega (arith, next, more', inside, small, low)) (omega (arith, enough, more'))
                  (omega (arith, next, enough, pos)))
                (λ rest _. met _ tt)))
        (λ _. met _ tt)

  elf_dynsym-Meets :
      (h : ElfHeader) (index : ℕ) (dynsym : Section)
      → Fits image bytes small h
      → index < h.shnum
      → ((entsize : ℕ)
          → read_u64 image (header_at image h.shoff index + 56) ≡ parsed entsize
          → entsize < 2 ^ 63)
      → Meets (Anything image bytes small) (elf_dynsym image h index dynsym)
  unfolding elf_dynsym Anything TableFits
  elf_dynsym-Meets h index dynsym f low steps =
      let room = header_at-le image bytes small h index f low in
      let at_index = header_at image h.shoff index in
      bind-Meets (read_u32 image (at_index + 40)) _
        (read_u32-Meets image bytes (at_index + 40) (omega (arith, room)))
        (λ link _.
          bind_eq-Meets (read_u64 image (at_index + 56)) _
            (read_u64-Meets image bytes (at_index + 56) (omega (arith, room)))
            (λ entsize read _.
              if-Meets
                (ltb link h.shnum && in_bounds dynsym.file_offset dynsym.file_size (length image)) _
                _
                (λ good.
                  let linked : link < h.shnum = ground (arith, good) in
                  let inside : in_bounds dynsym.file_offset dynsym.file_size (length image) ≡ true =
                    ground (arith, good) in
                  let link_room = header_at-le image bytes small h link f linked in
                  let at_link = header_at image h.shoff link in
                  bind-Meets (read_u64 image (at_link + 24)) _
                    (read_u64-Meets image bytes (at_link + 24) (omega (arith, link_room)))
                    (λ offset _.
                      bind-Meets (read_u64 image (at_link + 32)) _
                        (read_u64-Meets image bytes (at_link + 32) (omega (arith, link_room)))
                        (λ size _.
                          if-Meets (in_bounds offset size (length image)) _ _
                            (λ strings.
                              let step = if entsize == 0 then 24 else entsize in
                              elf_symbols-Meets (record { offset = offset; size = size }) dynsym
                                step (dynsym.file_size + 2) 0
                                (in_bounds-le offset size (length image) strings)
                                (in_bounds-le dynsym.file_offset dynsym.file_size (length image)
                                  inside)
                                (ground arith) (ground (arith, steps entsize read)) (omega arith)
                                (omega arith) (omega arith))
                            (λ _. met _ tt))))
                (λ _. met _ tt)))

  -- An image of fewer than 2 ^ 63 bytes in which no section header of the table has an entry size of 2 ^ 63 or more:
  -- the ELF adapter reads no byte outside of the image, its symbol loop ends within its fuel, and a
  -- result is labelled as ELF.
  pub parse_elf-Meets :
      ((shoff shnum index entsize : ℕ)
        → read_u64 image 0x28 ≡ parsed shoff
        → read_u16 image 0x3C ≡ parsed shnum
        → index < shnum
        → read_u64 image (header_at image shoff index + 56) ≡ parsed entsize
        → entsize < 2 ^ 63)
      → Meets (λ r. r.target.format ≡ Format.elf) (parse_elf image)
  unfolding parse_elf elf_exports Anything
  parse_elf-Meets steps =
      bind-Meets (elf_header image) _ (elf_header-Fits image bytes small) (λ h f.
        bind-Meets (elf_names image h) _ (elf_names-Fits image bytes small h f) (λ t g.
          bind-Meets (elf_target image) _ (elf_target-Meets image bytes small f) (λ target named.
            bind-Meets (elf_sections image h t 0 h.shnum) _
              (elf_sections-Meets image bytes small h t 0 h.shnum f g (omega arith))
              (λ sections n.
                bind-Meets (elf_exports image h sections) _ (exports h f sections n)
                  (λ exported _. met _ named)))))
    where
      exports :
          (h : ElfHeader)
          → Fits image bytes small h
          → (sections : List Section) → length sections ≡ h.shnum
          → Meets (Anything image bytes small) (elf_exports image h sections)
      exports h f sections n = elim (Option-cases (find_named (codes ".dynsym") 0 sections)) [
        | inl absent ↦ rw (elf_exports, absent) (met [] tt)
        | inr ((index, dynsym), found) ↦
            let low : index < h.shnum =
              omega (arith, find_named-lt (codes ".dynsym") 0 sections index dynsym found, n) in
            rw (elf_exports, found)
              (elf_dynsym-Meets h index dynsym f low
                (λ entsize read. steps h.shoff h.shnum index entsize f.origin f.number low read))
      ]
