-- ===== src/Binary/Elf.antt =====
-- include/SKL/ABIX/Binary/ELF.h: the ELF64 adapter. `image` is the file's bytes; a null pointer is
-- the empty image, which the first test refuses alike.
pub mod Bounds
pub mod Exports
use abix.Prelude.{
  ℕ, zero, suc, ◌+◌, ◌-◌, ◌*◌, ◌/◌, ◌%◌, ◌^◌, Bool, true, false, not, ◌&&◌, ◌||◌, ◌==◌, leb, ltb,
  if◌then◌else◌, List, [], ◌∷◌, ◌++◌, Option, none, some, length, get_or,
}
use abix.Model.Abi.{codes}
use abix.Binary.Reader.{
  ParseError, not_elf, truncated_identification, unsupported_class, unsupported_endianness,
  truncated_elf_header, unexpected_section_header_size, no_section_headers,
  section_table_out_of_bounds, name_index_out_of_range, name_table_out_of_bounds, Parse, fault,
  exhausted, refused, parsed, ◌>>=◌, ◌>>◌, require, ◌+₆₄◌, in_bounds, byte, read_u16, read_u32,
  read_u64, read_name,
}
use abix.Binary.Image.{
  Format, OperatingSystem, Architecture, Endianness, Section, Export, Target, ParseResult,
  same_text,
}

pub record ElfHeader : Type 0 where
  pub shoff : ℕ
  pub shnum : ℕ
  pub shstrndx : ℕ

pub record NameTable : Type 0 where
  pub offset : ℕ
  pub size : ℕ

-- The first section of a name, with its index.
unfoldable pub find_named : List ℕ → ℕ → List Section → Option (ℕ × Section)
find_named name i [] = none
find_named name i (s ∷ ss) =
    let rest = find_named name (i + 1) ss in if same_text s.name name then some (i, s) else rest

module _ (image : List ℕ) where
  -- `data[at] == x && ...`, which reads no byte after one that differs.
  unfoldable pub same_bytes : List ℕ → ℕ → Parse Bool
  same_bytes [] at = parsed true
  same_bytes (x ∷ xs) at = do
    b ← byte image at
    if b == x then same_bytes xs (at + 1) else parsed false

  unfoldable pub is_elf : Parse Bool
  is_elf = if leb 4 (length image) then same_bytes (0x7f ∷ codes "ELF") 0 else parsed false

  unfoldable pub elf_header : Parse ElfHeader
  elf_header = do
    known ← is_elf
    require known not_elf
    require (leb 16 (length image)) truncated_identification
    class ← byte image 4
    require (class == 2) unsupported_class
    order ← byte image 5
    require (order == 1) unsupported_endianness
    require (leb 0x40 (length image)) truncated_elf_header
    shoff ← read_u64 image 0x28
    shentsize ← read_u16 image 0x3A
    shnum ← read_u16 image 0x3C
    shstrndx ← read_u16 image 0x3E
    require (shentsize == 64) unexpected_section_header_size
    require (not (shnum == 0)) no_section_headers
    require (in_bounds shoff (shentsize * shnum) (length image)) section_table_out_of_bounds
    require (ltb shstrndx shnum) name_index_out_of_range
    parsed (record { shoff = shoff; shnum = shnum; shstrndx = shstrndx })

  -- The index is a `uint16_t`.
  abbrev pub header_at : ℕ → ℕ → ℕ
  header_at shoff index = shoff +₆₄ index % 2 ^ 16 * 64

  unfoldable pub elf_names : ElfHeader → Parse NameTable
  elf_names h = do
    offset ← read_u64 image (header_at h.shoff h.shstrndx + 24)
    size ← read_u64 image (header_at h.shoff h.shstrndx + 32)
    require (in_bounds offset size (length image)) name_table_out_of_bounds
    parsed (record { offset = offset; size = size })

  -- The bytes from `start` up to a zero or the end of the table.
  unfoldable pub name_of : NameTable → ℕ → Parse (List ℕ)
  name_of t name_offset =
      if leb t.size name_offset
      then parsed []
      else read_name image ((t.offset +₆₄ t.size) - (t.offset +₆₄ name_offset))
          (t.offset +₆₄ name_offset)

  unfoldable pub elf_target : Parse Target
  elf_target = do
    abi ← byte image 7
    machine ← read_u16 image 0x12
    parsed (record {
      format = Format.elf;
      os = if abi == 9 then OperatingSystem.freebsd else OperatingSystem.linux;
      architecture =
          if machine == 3
          then Architecture.x86
          else if machine == 62
          then Architecture.x86_64
          else if machine == 40
          then Architecture.arm32
          else if machine == 183
          then Architecture.arm64
          else if machine == 243
          then Architecture.riscv64
          else Architecture.unknown;
      endian = Endianness.little;
      pointer_size = 8;
      image_base = 0;
    })

  unfoldable pub elf_section : ElfHeader → NameTable → ℕ → Parse Section
  elf_section h t i = do
    type ← read_u32 image (header_at h.shoff i + 4)
    flags ← read_u64 image (header_at h.shoff i + 8)
    address ← read_u64 image (header_at h.shoff i + 16)
    file_offset ← read_u64 image (header_at h.shoff i + 24)
    size ← read_u64 image (header_at h.shoff i + 32)
    alignment ← read_u64 image (header_at h.shoff i + 48)
    name_offset ← read_u32 image (header_at h.shoff i)
    name ← name_of t name_offset
    parsed (record {
      name = name;
      segment = [];
      file_offset = file_offset;
      file_size = if type == 8 then 0 else size;
      address = address;
      size = size;
      alignment = alignment;
      type = type;
      flags = flags;
    })

  -- The loop from section `i` on, with `left` sections left.
  unfoldable pub elf_sections : ElfHeader → NameTable → ℕ → ℕ → Parse (List Section)
  elf_sections h t i zero = parsed []
  elf_sections h t i (suc left) = do
    section ← elf_section h t i
    rest ← elf_sections h t (i + 1) left
    parsed (section ∷ rest)

  -- The export of a symbol, if it is one: the tests that `continue`, then the name.
  unfoldable pub elf_symbol : NameTable → ℕ → Parse (List Export)
  elf_symbol strings entry = do
    st_name ← read_u32 image entry
    st_info ← byte image (entry + 4)
    st_shndx ← read_u16 image (entry + 6)
    st_value ← read_u64 image (entry + 8)
    if st_shndx == 0 || st_name == 0 || not (st_info / 16 == 1) && not (st_info / 16 == 2)
        then parsed []
        else (do
          name ←
              read_name image ((strings.offset +₆₄ strings.size) - (strings.offset +₆₄ st_name))
                (strings.offset +₆₄ st_name)
          parsed (
              if length name == 0
              then []
              else record { name = name; address = st_value; ordinal = 0 } ∷ []))

  -- The loop over the symbols, whose offset and step are `uint64_t`.
  unfoldable pub elf_symbols : NameTable → Section → ℕ → ℕ → ℕ → Parse (List Export)
  elf_symbols strings dynsym step zero off = exhausted
  elf_symbols strings dynsym step (suc fuel) off =
      if leb (off +₆₄ 24) dynsym.file_size
      then (do
        found ← elf_symbol strings (dynsym.file_offset +₆₄ off)
        rest ← elf_symbols strings dynsym step fuel (off +₆₄ step)
        parsed (found ++ rest))
      else parsed []

  unfoldable pub elf_dynsym : ElfHeader → ℕ → Section → Parse (List Export)
  elf_dynsym h index dynsym = do
    link ← read_u32 image (header_at h.shoff index + 40)
    entsize ← read_u64 image (header_at h.shoff index + 56)
    if ltb link h.shnum && in_bounds dynsym.file_offset dynsym.file_size (length image)
        then (do
          offset ← read_u64 image (header_at h.shoff link + 24)
          size ← read_u64 image (header_at h.shoff link + 32)
          if in_bounds offset size (length image)
              then elf_symbols (record { offset = offset; size = size }) dynsym
                  (if entsize == 0 then 24 else entsize) (dynsym.file_size + 2) 0
              else parsed [])
        else parsed []

  unfoldable pub elf_exports : ElfHeader → List Section → Parse (List Export)
  elf_exports h sections = elim (find_named (codes ".dynsym") 0 sections) [
    | none ↦ parsed []
    | some (index, dynsym) ↦ elf_dynsym h index dynsym
  ]

  unfoldable pub parse_elf : Parse ParseResult
  parse_elf = do
    h ← elf_header
    t ← elf_names h
    target ← elf_target
    sections ← elf_sections h t 0 h.shnum
    exports ← elf_exports h sections
    parsed (record { target = target; sections = sections; exports = exports })
