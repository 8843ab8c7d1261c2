-- ===== src/Tests/Images.antt =====
-- include/SKL/ABIX/Binary: small images of the three formats.
use abix.Prelude.{
  ℕ, zero, suc, ◌+◌, ◌/◌, ◌%◌, ◌^◌, ◌<◌, ◌≡◌, refl, sym, ◌∙◌, subst, ◌≤◌, arith, Bool, true, ◌&&◌,
  ltb, ◌==◌, List, [], ◌∷◌, ◌++◌, some, length,
}
use abix.Model.Abi.{codes}
use abix.Binary.Reader.{
  Parse, ◌>>=◌, ◌>>◌, require, in_bounds, byte, read_le, read_name, fault, parsed, read_u16,
  read_u32, read_u64,
}
use abix.Binary.Reader.Bounds.{Meets, IsBytes}
use abix.Binary.Image.{
  Format, OperatingSystem, Architecture, Endianness, same_text, Section, ParseResult,
}
use abix.Binary.Elf.{is_elf, same_bytes, header_at, parse_elf}
use abix.Binary.Elf.Exports.{parse_elf-Meets}
use abix.Binary.Macho.{
  pick, is_macho, macho_header, macho_commands, macho_command, macho_segment, parse_macho,
}
use abix.Binary.Macho.Exports.{parse_macho-Meets}
use abix.Binary.Pe.{
  SectionRange, is_pe, pe_header, pe_optional, pe_section, pe_sections, rva_to_offset,
}
use abix.Binary.Pe.Exports.{pe_exports, parse_pe}
use abix.Binary.Pe.Reads.{parse_pe-Meets}
use abix.Binary.Pe.Rva.{Mapped, rva_to_offset-Mapped}
use abix.Binary.Container.{
  native_section_name, find_section, read_content, assign, find_region, read_region, detect_format,
  parse_binary_image,
}
use abix.Binary.Container.Bounds.{Within, read_region-Within}
use abix.Binary.Container.Adapters.{parse_binary_image-Meets}

abbrev le : ℕ → ℕ → List ℕ
le zero v = []
le (suc n) v = (v % 256) ∷ le n (v / 256)

abbrev are_bytes : List ℕ → Bool
are_bytes [] = true
are_bytes (b ∷ bs) = ltb b 256 && are_bytes bs

are_bytes-IsBytes : (bs : List ℕ) → are_bytes bs ≡ true → IsBytes bs
are_bytes-IsBytes [] h = tt
are_bytes-IsBytes (b ∷ bs) h = (ground (arith, h), are_bytes-IsBytes bs (ground (arith, h)))

-- One section, the name table of 11 bytes.
abbrev elf_image : List ℕ
elf_image =
    0x7f ∷ codes "ELF"
    ++ (2 ∷ 1 ∷ 1 ∷ 0 ∷ [])
    ++ le 8 0
    ++ le 2 3
    ++ le 2 62
    ++ le 4 1
    ++ le 8 0
    ++ le 8 0
    ++ le 8 0x40
    ++ le 4 0
    ++ le 2 0x40
    ++ le 2 0
    ++ le 2 0
    ++ le 2 64
    ++ le 2 1
    ++ le 2 0
    ++ le 4 1
    ++ le 4 3
    ++ le 8 0
    ++ le 8 0
    ++ le 8 0x80
    ++ le 8 11
    ++ le 4 0
    ++ le 4 0
    ++ le 8 1
    ++ le 8 0
    ++ (0 ∷ [])
    ++ codes ".shstrtab"
    ++ (0 ∷ [])

-- A symbol table command of 24 bytes, with no symbols, and 16 bytes after it.
abbrev macho_image : List ℕ
macho_image =
    le 4 0xFEED_FACF
    ++ le 4 0x0100_000C
    ++ le 4 0
    ++ le 4 6
    ++ le 4 1
    ++ le 4 24
    ++ le 8 0
    ++ le 4 2
    ++ le 4 24
    ++ le 4 56
    ++ le 4 0
    ++ le 4 56
    ++ le 4 16
    ++ le 16 0

-- A segment command of 8 bytes at the end of the image.
abbrev short_segment_image : List ℕ
short_segment_image =
    le 4 0xFEED_FACF
    ++ le 4 0x0100_000C
    ++ le 4 0
    ++ le 4 6
    ++ le 4 1
    ++ le 4 8
    ++ le 8 0
    ++ le 4 0x19
    ++ le 4 8

-- PE32 with one section .abix of 4 bytes at 0xF0.
abbrev pe_image : List ℕ
pe_image =
    codes "MZ"
    ++ le 58 0
    ++ le 4 0x40
    ++ codes "PE"
    ++ le 2 0
    ++ le 2 0x014c
    ++ le 2 1
    ++ le 12 0
    ++ le 2 104
    ++ le 2 0
    ++ le 2 0x10B
    ++ le 26 0
    ++ le 4 0x40_0000
    ++ le 72 0
    ++ codes ".abix"
    ++ le 3 0
    ++ le 4 4
    ++ le 4 0x1000
    ++ le 4 4
    ++ le 4 0xE8
    ++ le 16 0
    ++ codes "META"
    ++ le 4 0

elf-IsBytes : IsBytes elf_image
elf-IsBytes = are_bytes-IsBytes elf_image refl

macho-IsBytes : IsBytes macho_image
macho-IsBytes = are_bytes-IsBytes macho_image refl

pe-IsBytes : IsBytes pe_image
pe-IsBytes = are_bytes-IsBytes pe_image refl

elf_table : read_u64 elf_image 0x28 ≡ parsed 0x40
unfolding read_u64 read_le byte ◌>>=◌
elf_table = refl

elf_count : read_u16 elf_image 0x3C ≡ parsed 1
unfolding read_u16 read_le byte ◌>>=◌
elf_count = refl

elf_entry_size : read_u64 elf_image (header_at elf_image 0x40 0 + 56) ≡ parsed 0
unfolding read_u64 read_le byte ◌>>=◌ header_at
elf_entry_size = refl

macho_commands_size : read_u32 macho_image 20 ≡ parsed 24
unfolding read_u32 read_le byte ◌>>=◌
macho_commands_size = refl

parsed-parsed : {a b : ℕ} → ◌≡◌ {A = Parse ℕ} (parsed a) (parsed b) → a ≡ b
parsed-parsed e = cc

short_enough : (bs : List ℕ) → ltb (length bs) (2 ^ 63) ≡ true → length bs < 2 ^ 63
short_enough bs h = ground (arith, h)

only_header :
    (shoff shnum index entsize : ℕ)
    → read_u64 elf_image 0x28 ≡ parsed shoff
    → read_u16 elf_image 0x3C ≡ parsed shnum
    → index < shnum
    → read_u64 elf_image (header_at elf_image shoff index + 56) ≡ parsed entsize
    → entsize < 2 ^ 63
only_header shoff shnum zero entsize at number low read =
    let table : 0x40 ≡ shoff = table_at shoff at in
    let e : 0 ≡ entsize = entry_size (
      subst (λ o. read_u64 elf_image (header_at elf_image o 0 + 56) ≡ parsed entsize) (sym table)
        read) in
    omega (arith, e)
  where
    table_at : (o : ℕ) → read_u64 elf_image 0x28 ≡ parsed o → 0x40 ≡ o
    table_at o h = parsed-parsed (sym elf_table ∙ h)

    entry_size : read_u64 elf_image (header_at elf_image 0x40 0 + 56) ≡ parsed entsize → 0 ≡ entsize
    entry_size h = parsed-parsed (sym elf_entry_size ∙ h)
only_header shoff shnum (suc index) entsize at number low read =
    let one : 1 ≡ shnum = parsed-parsed (sym elf_count ∙ number) in absurd (omega (arith, one, low))

macho_magic : read_u32 macho_image 0 ≡ parsed 0xFEED_FACF
unfolding read_u32 read_le byte ◌>>=◌
macho_magic = refl

-- Exactly 16 bytes follow.
slack :
    (magic commands_size : ℕ)
    → read_u32 macho_image 0 ≡ parsed magic
    → read_u32 macho_image 20 ≡ parsed commands_size
    → pick (magic == 0xFEED_FACF) 32 28 + commands_size + 16 ≤ length macho_image
slack magic commands_size first read =
    let m : 0xFEED_FACF ≡ magic = parsed-parsed (sym macho_magic ∙ first) in
    let e : 24 ≡ commands_size = parsed-parsed (sym macho_commands_size ∙ read) in
    subst (λ k. pick (k == 0xFEED_FACF) 32 28 + commands_size + 16 ≤ length macho_image) m
      (subst (λ n. 32 + n + 16 ≤ length macho_image) e room)
  where
    room : 32 + 24 + 16 ≤ length macho_image
    room = omega arith

parse_elf_example : Meets (λ r. r.target.format ≡ Format.elf) (parse_elf elf_image)
parse_elf_example = parse_elf-Meets elf_image elf-IsBytes (short_enough elf_image refl) only_header

parse_macho_example : Meets (λ r. r.target.format ≡ Format.macho) (parse_macho macho_image)
parse_macho_example =
    parse_macho-Meets macho_image macho-IsBytes (short_enough macho_image refl) slack

parse_pe_example : Meets (λ r. r.target.format ≡ Format.pe) (parse_pe pe_image)
parse_pe_example = parse_pe-Meets pe_image pe-IsBytes

macho_detected : detect_format macho_image ≡ parsed Format.macho
unfolding detect_format is_elf same_bytes is_macho read_u32 read_le byte ◌>>=◌ in_bounds
macho_detected = refl

parse_binary_image_example :
    Meets
      (λ image.
        (image.data_ ≡ macho_image)
        × (detect_format macho_image ≡ parsed image.result.target.format))
      (parse_binary_image macho_image)
parse_binary_image_example =
    parse_binary_image-Meets macho_image macho-IsBytes (short_enough macho_image refl)
      (λ shoff shnum index entsize detected _ _ _ _. absurd (other (sym macho_detected ∙ detected)))
      (λ magic commands_size detected. slack magic commands_size)
  where
    other : ◌≡◌ {A = Parse Format} (parsed Format.macho) (parsed Format.elf) → ⊥
    other e = absurd (cc)

-- Three bytes of an ELF identification are no ELF file, and no fourth byte is read.
short_identification : detect_format (0x7f ∷ 0x45 ∷ 0x4C ∷ []) ≡ parsed Format.unknown
unfolding detect_format is_elf same_bytes is_macho is_pe read_u32 read_le byte ◌>>=◌ in_bounds
short_identification = refl

-- The segment command's name is read past the end.
short_segment_faults : parse_macho short_segment_image ≡ fault
unfolding parse_macho macho_header is_macho macho_commands macho_command macho_segment read_u32
    read_le byte read_name ◌>>=◌ ◌>>◌ require in_bounds
short_segment_faults = refl

abbrev abix_section : Section
abix_section = record {
  name = codes ".abix";
  segment = [];
  file_offset = 0xE8;
  file_size = 4;
  address = 0x40_1000;
  size = 4;
  alignment = 0;
  type = 0;
  flags = 0;
}

abbrev pe_result : ParseResult
pe_result = record {
  target = record {
    format = Format.pe;
    os = OperatingSystem.windows;
    architecture = Architecture.x86;
    endian = Endianness.little;
    pointer_size = 4;
    image_base = 0x40_0000;
  };
  sections = abix_section ∷ [];
  exports = [];
}

abbrev abix_range : SectionRange
abix_range = record { rva = 0x1000; virtual_size = 4; raw_size = 4; raw_offset = 0xE8 }

pe_parsed : parse_pe pe_image ≡ parsed pe_result
unfolding parse_pe pe_header is_pe pe_optional pe_sections pe_section pe_exports read_u16 read_u32
    read_le byte read_name ◌>>=◌ ◌>>◌ require in_bounds
pe_parsed = refl

region_read :
    read_region (record { data_ = pe_image; result = pe_result }) (codes ".abix.metadata")
    ≡ parsed (codes "META")
unfolding read_region read_content find_region find_section native_section_name same_text assign
    byte ◌>>=◌ ◌>>◌ require in_bounds
region_read = refl

read_region_example :
    Meets
      (λ content.
        (section : Section) × (find_region
            (record { data_ = pe_image; result = pe_result })
            (codes ".abix.metadata")
          ≡ some section)
        × Within pe_image section.file_offset section.file_size content)
      (read_region (record { data_ = pe_image; result = pe_result }) (codes ".abix.metadata"))
read_region_example =
    read_region-Within (record { data_ = pe_image; result = pe_result }) (codes ".abix.metadata")
      pe-IsBytes (short_enough pe_image refl)

address_mapped : rva_to_offset pe_image (abix_range ∷ []) 0x1002 ≡ some 0xEA
unfolding rva_to_offset in_bounds
address_mapped = refl

rva_to_offset_example : Mapped (length pe_image) 0x1002 0xEA (abix_range ∷ [])
rva_to_offset_example = rva_to_offset-Mapped pe_image (abix_range ∷ []) 0x1002 0xEA address_mapped
