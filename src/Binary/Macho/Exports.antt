-- ===== src/Binary/Macho/Exports.antt =====
-- The symbols of the Mach-O adapter, and the adapter as a whole.
use abix.Prelude.{
  ℕ, zero, suc, ◌+◌, ◌-◌, ◌*◌, ◌^◌, ◌≤◌, ◌<◌, ◌≡◌, refl, arith, bit_and, Bool, true, false, not,
  ◌&&◌, ◌||◌, ◌==◌, ltb, List, Option, none, some, length,
}
use abix.Binary.Reader.{parsed, ◌+₆₄◌, in_bounds, byte, read_u32, read_name}
use abix.Binary.Reader.Bounds.{
  Meets, met, bind-Meets, bind_eq-Meets, require-Meets, if-Meets, IsBytes, in_bounds-le, byte-Meets,
  read_u32-Meets, read_until-Meets,
}
use abix.Binary.Image.{Format}
use abix.Binary.Macho.{
  MachoHeader, Symtab, pick, is_macho, macho_header, read_word, macho_commands, macho_symbol,
  macho_symbols, macho_exports, parse_macho,
}
use abix.Binary.Macho.Bounds.{Anything, read_word-Meets, macho_commands-Meets}

-- An entry of the symbol table has its fields inside of it, and lies inside of the table.
symbol_fields : (b : Bool) → (8 + pick b 8 4 ≤ pick b 16 12)
symbol_fields true = omega arith
symbol_fields false = omega arith

symbol_room :
    (b : Bool) (i count : ℕ) → i < count → i * pick b 16 12 + pick b 16 12 ≤ count * pick b 16 12
symbol_room true i count h = omega (arith, h)
symbol_room false i count h = omega (arith, h)

header_sizes : (b : Bool) → (28 ≤ pick b 32 28) × (pick b 32 28 ≤ 32)
header_sizes true = (omega arith, omega arith)
header_sizes false = (omega arith, omega arith)

module _ (image : List ℕ) (bytes : IsBytes image) (small : length image < 2 ^ 63) where
  macho_symbol-Meets :
      (is64 : Bool) (t : Symtab) (entry : ℕ)
      → entry + pick is64 16 12 ≤ length image
      → t.stroff + t.strsize ≤ length image
      → Meets (Anything image bytes small) (macho_symbol image is64 t entry)
  unfolding macho_symbol Anything
  macho_symbol-Meets is64 t entry inside strings =
      let f = symbol_fields is64 in
      let end : t.stroff +₆₄ t.strsize ≤ length image = omega (arith, strings, small) in
      bind-Meets (read_u32 image entry) _
        (read_u32-Meets image bytes entry (omega (arith, inside, f)))
        (λ n_strx _.
          bind-Meets (byte image (entry + 4)) _
            (byte-Meets image bytes (entry + 4) (omega (arith, inside, f)))
            (λ n_type _.
              bind-Meets (read_word image is64 (entry + 8)) _
                (read_word-Meets image bytes small is64 (entry + 8) (omega (arith, inside, f)))
                (λ n_value _.
                  if-Meets
                    (bit_and n_type 1 == 0 || not (bit_and n_type 0x0e == 0x0e) || n_strx == 0) _ _
                    (λ _. met _ tt)
                    (λ _.
                      bind-Meets
                        (read_name image ((t.stroff +₆₄ t.strsize) - (t.stroff +₆₄ n_strx))
                          (t.stroff +₆₄ n_strx))
                        _
                        (read_until-Meets image bytes (t.stroff +₆₄ n_strx) (t.stroff +₆₄ t.strsize)
                          end)
                        (λ name _. met _ tt)))))

  macho_symbols-Meets :
      (is64 : Bool) (t : Symtab) (i left : ℕ)
      → i + left ≡ t.nsyms
      → t.symoff + t.nsyms * pick is64 16 12 ≤ length image
      → t.stroff + t.strsize ≤ length image
      → Meets (Anything image bytes small) (macho_symbols image is64 t i left)
  unfolding macho_symbols Anything
  macho_symbols-Meets is64 t i zero e table strings = met _ tt
  macho_symbols-Meets is64 t i (suc left) e table strings =
      let room = symbol_room is64 i t.nsyms (omega (arith, e)) in
      bind-Meets (macho_symbol image is64 t (t.symoff + i * pick is64 16 12)) _
        (macho_symbol-Meets is64 t (t.symoff + i * pick is64 16 12) (omega (arith, room, table))
          strings)
        (λ found _.
          bind-Meets (macho_symbols image is64 t (i + 1) left) _
            (macho_symbols-Meets is64 t (i + 1) left (omega (arith, e)) table strings)
            (λ rest _. met _ tt))

  macho_exports-Meets :
      (is64 : Bool) (symtab : Option Symtab)
      → Meets (Anything image bytes small) (macho_exports image is64 symtab)
  unfolding macho_exports Anything
  macho_exports-Meets is64 none = met _ tt
  macho_exports-Meets is64 (some t) =
      if-Meets _ _ _
        (λ good. macho_symbols-Meets is64 t 0 t.nsyms (omega arith) (table good) (strings good))
        (λ _. met _ tt)
    where
      table :
          (in_bounds t.symoff (t.nsyms * pick is64 16 12) (length image)
              && in_bounds t.stroff t.strsize (length image)
            ≡ true)
          → t.symoff + t.nsyms * pick is64 16 12 ≤ length image
      table good =
          in_bounds-le t.symoff (t.nsyms * pick is64 16 12) (length image) (ground (arith, good))

      strings :
          (in_bounds t.symoff (t.nsyms * pick is64 16 12) (length image)
              && in_bounds t.stroff t.strsize (length image)
            ≡ true)
          → t.stroff + t.strsize ≤ length image
      strings good = in_bounds-le t.stroff t.strsize (length image) (ground (arith, good))

  -- What the rest of the adapter knows of a header.
  unfoldable Headed : MachoHeader → Type 0
  Headed h =
      (28 ≤ length image)
      × (h.header_size ≤ 32)
      × (h.header_size + h.commands_size ≤ length image)
      × (read_u32 image 20 ≡ parsed h.commands_size)
      × ((magic : ℕ) × (read_u32 image 0 ≡ parsed magic)
          × (h.header_size ≡ pick (magic == 0xFEED_FACF) 32 28))

  pub is_macho-Meets : Meets (λ known. known ≡ true → 4 ≤ length image) (is_macho image)
  unfolding is_macho
  is_macho-Meets =
      if-Meets (ltb (length image) 4) _ _ (λ _. met _ (λ absurd_. absurd (cc)))
        (λ long.
          let four : 4 ≤ length image = ground (arith, long) in
          bind-Meets (read_u32 image 0) _ (read_u32-Meets image bytes 0 (omega (arith, four)))
            (λ magic _. met _ (λ _. four)))

  macho_header-Headed : Meets Headed (macho_header image)
  unfolding macho_header Headed
  macho_header-Headed = bind-Meets (is_macho image) _ is_macho-Meets (λ known four.
      require-Meets _ _ _ (λ yes.
        let long = four yes in
        bind_eq-Meets (read_u32 image 0) _ (read_u32-Meets image bytes 0 (omega (arith, long)))
          (λ magic first _.
            let (low, high) = header_sizes (magic == 0xFEED_FACF) in
            require-Meets _ _ _ (λ whole.
              let fits : pick (magic == 0xFEED_FACF) 32 28 ≤ length image = ground (arith, whole) in
              bind-Meets (read_u32 image 16) _
                (read_u32-Meets image bytes 16 (omega (arith, fits, low)))
                (λ count _.
                  bind_eq-Meets (read_u32 image 20) _
                    (read_u32-Meets image bytes 20 (omega (arith, fits, low)))
                    (λ size read _. require-Meets _ _ _ (λ room. met _ (
                      omega (arith, fits, low),
                      high,
                      in_bounds-le _ _ _ room,
                      read,
                      (magic, first, refl),
                    ))))))))

  -- An image of fewer than 2 ^ 63 bytes whose load commands, which begin behind the header of 32 bytes for
  -- the 64-bit magic and of 28 bytes otherwise and have the size at offset 20, end at least 16 bytes before
  -- the end of the image: the Mach-O adapter reads no byte outside of the image and stops,
  -- and a result is labelled as Mach-O.
  pub parse_macho-Meets :
      ((magic commands_size : ℕ)
        → read_u32 image 0 ≡ parsed magic
        → read_u32 image 20 ≡ parsed commands_size
        → pick (magic == 0xFEED_FACF) 32 28 + commands_size + 16 ≤ length image)
      → Meets (λ r. r.target.format ≡ Format.macho) (parse_macho image)
  unfolding parse_macho Headed
  parse_macho-Meets slack =
      bind-Meets (macho_header image) _ macho_header-Headed
        (λ h (long, header, inside, read, (magic, first, begins)).
          bind-Meets (read_u32 image 4) _ (read_u32-Meets image bytes 4 (omega (arith, long)))
            (λ cpu _.
              let room : h.header_size + h.commands_size + 16 ≤ length image =
                rw begins (slack magic h.commands_size first read) in
              bind-Meets
                (macho_commands image h.is64 (h.header_size +₆₄ h.commands_size) h.header_size
                  h.command_count _)
                _
                (macho_commands-Meets image bytes small h.is64 (h.header_size +₆₄ h.commands_size)
                  h.header_size h.command_count _ (omega (arith, room, header, small))
                  (omega (arith, room, header, small)))
                (λ w _.
                  bind-Meets (macho_exports image h.is64 w.symtab) _
                    (macho_exports-Meets h.is64 w.symtab) (λ exports _. met _ refl))))
