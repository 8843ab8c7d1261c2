-- ===== src/Binary/Pe.antt =====
-- include/SKL/ABIX/Binary/PE.h: the PE32 and PE32+ adapter. `image` is the file's bytes; a null pointer
-- is the empty image, which the first test refuses alike. The offsets of the adapter are sums of a few
-- 32-bit fields, which do not wrap in a size_t.

pub mod Bounds
pub mod Rva
pub mod Exports
pub mod Reads
use abix.Prelude.{
  ℕ, zero, suc, ◌+◌, ◌-◌, ◌*◌, ◌%◌, ◌^◌, Bool, true, false, not, ◌&&◌, ◌||◌, ◌==◌, leb, ltb,
  if◌then◌else◌, List, [], ◌∷◌, ◌++◌, Option, none, some, length,
}
use abix.Binary.Reader.{
  ParseError, not_pe, truncated_pe_header, optional_out_of_bounds, truncated_optional,
  unsupported_magic, optional_too_small, section_table_out_of_bounds, Parse, fault, exhausted,
  refused, parsed, ◌>>=◌, ◌>>◌, require, ◌+₆₄◌, in_bounds, byte, read_u16, read_u32, read_u64,
  read_name,
}
use abix.Binary.Image.{
  Format, OperatingSystem, Architecture, Endianness, Section, Export, Target, ParseResult,
}

-- What the headers give: the machine, where the data directories and the sections start.
pub record PeHeader : Type 0 where
  pub machine : ℕ
  pub is_plus : Bool
  pub image_base : ℕ
  pub data_directory : ℕ
  pub section_table : ℕ
  pub section_count : ℕ

pub record SectionRange : Type 0 where
  pub rva : ℕ
  pub virtual_size : ℕ
  pub raw_size : ℕ
  pub raw_offset : ℕ

module _ (image : List ℕ) where
  unfoldable pub is_pe : Parse Bool
  is_pe = if ltb (length image) 0x40 then parsed false else (do
    m ← byte image 0
    z ← byte image 1
    if not (m == b'M' && z == b'Z') then parsed false else (do
      nt ← read_u32 image 0x3C
      if not (in_bounds nt 4 (length image)) then parsed false else (do
        p ← byte image nt
        e ← byte image (nt + 1)
        x ← byte image (nt + 2)
        y ← byte image (nt + 3)
        parsed (p == b'P' && e == b'E' && x == 0 && y == 0))))

  -- The optional header, by its width.
  unfoldable pub pe_optional : Bool → ℕ → ℕ → Parse (ℕ × ℕ)
  pe_optional true optional optional_size = do
    require (leb 120 optional_size) optional_too_small
    image_base ← read_u64 image (optional + 24)
    parsed (image_base, optional + 112)
  pe_optional false optional optional_size = do
    require (leb 104 optional_size) optional_too_small
    image_base ← read_u32 image (optional + 28)
    parsed (image_base, optional + 96)

  unfoldable pub pe_header : Parse PeHeader
  pe_header = do
    known ← is_pe
    require known not_pe
    nt ← read_u32 image 0x3C
    require (in_bounds (nt + 4) 20 (length image)) truncated_pe_header
    machine ← read_u16 image (nt + 4)
    section_count ← read_u16 image (nt + 6)
    optional_size ← read_u16 image (nt + 20)
    require (in_bounds (nt + 24) optional_size (length image)) optional_out_of_bounds
    require (leb 2 optional_size) truncated_optional
    magic ← read_u16 image (nt + 24)
    require (magic == 0x20B || magic == 0x10B) unsupported_magic
    (image_base, data_directory) ← pe_optional (magic == 0x20B) (nt + 24) optional_size
    require (in_bounds (nt + 24 + optional_size) (section_count * 40) (length image))
        section_table_out_of_bounds
    parsed (record {
      machine = machine;
      is_plus = magic == 0x20B;
      image_base = image_base;
      data_directory = data_directory;
      section_table = nt + 24 + optional_size;
      section_count = section_count;
    })

  abbrev pub pe_architecture : ℕ → Architecture
  pe_architecture machine =
      if machine == 0x014c
      then Architecture.x86
      else if machine == 0x8664
      then Architecture.x86_64
      else if machine == 0x01c0 || machine == 0x01c4
      then Architecture.arm32
      else if machine == 0xaa64
      then Architecture.arm64
      else Architecture.unknown

  -- A section header, as the section and as the range that rva_to_offset searches.
  unfoldable pub pe_section : ℕ → ℕ → Parse (Section × SectionRange)
  pe_section image_base header = do
    virtual_size ← read_u32 image (header + 8)
    virtual_address ← read_u32 image (header + 12)
    raw_size ← read_u32 image (header + 16)
    raw_offset ← read_u32 image (header + 20)
    name ← read_name image 8 header
    flags ← read_u32 image (header + 36)
    parsed (
      record {
        name = name;
        segment = [];
        file_offset = raw_offset;
        file_size = raw_size;
        address = image_base +₆₄ virtual_address;
        size = virtual_size;
        alignment = 0;
        type = 0;
        flags = flags;
      },
      record {
        rva = virtual_address;
        virtual_size = virtual_size;
        raw_size = raw_size;
        raw_offset = raw_offset;
      },
    )

  unfoldable pub pe_sections : ℕ → ℕ → ℕ → ℕ → Parse (List Section × List SectionRange)
  pe_sections image_base table i zero = parsed ([], [])
  pe_sections image_base table i (suc left) = do
    (section, range) ← pe_section image_base (table + i * 40)
    (sections, ranges) ← pe_sections image_base table (i + 1) left
    parsed (section ∷ sections, range ∷ ranges)

  -- The first range that holds the address, its end wrapped to 32 bits, decides.
  unfoldable pub rva_to_offset : List SectionRange → ℕ → Option ℕ
  rva_to_offset [] rva = none
  rva_to_offset (range ∷ ranges) rva =
      let rest = rva_to_offset ranges rva in
      let span =
        if ltb range.raw_size range.virtual_size then range.virtual_size else range.raw_size in
      let delta = rva - range.rva in
      if ltb rva range.rva || leb ((range.rva + span) % 2 ^ 32) rva
      then rest
      else if leb range.raw_size delta
      then none
      else if in_bounds (range.raw_offset + delta) 1 (length image)
      then some (range.raw_offset + delta)
      else none
