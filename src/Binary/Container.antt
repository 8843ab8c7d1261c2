-- ===== src/Binary/Container.antt =====
-- include/SKL/ABIX/Binary/BinaryImage.h, class BinaryImage and parse_binary_image: a parsed image over its
-- bytes, the region lookup by canonical name, and the choice of the adapter.

pub mod Bounds
pub mod Adapters
use abix.Prelude.{
  ℕ, zero, suc, ◌+◌, ◌-◌, ◌*◌, ◌%◌, ◌^◌, Bool, true, false, not, ◌&&◌, ◌||◌, ◌==◌, leb, ltb,
  if◌then◌else◌, List, [], ◌∷◌, ◌++◌, map, Option, none, some, length,
}
use abix.Model.Abi.{codes}
use abix.Binary.Reader.{
  ParseError, unsupported_binary, section_not_found, no_file_content, region_out_of_bounds, Parse,
  fault, exhausted, refused, parsed, ◌>>=◌, ◌>>◌, require, ◌+₆₄◌, in_bounds, byte, read_u16,
  read_u32,
}
use abix.Binary.Image.{Format, Section, Export, Target, ParseResult, same_text}
use abix.Binary.Elf.{is_elf, parse_elf}
use abix.Binary.Macho.{is_macho, parse_macho}
use abix.Binary.Pe.{is_pe}
use abix.Binary.Pe.Exports.{parse_pe}

pub record BinaryImage : Type 0 where
  pub data_ : List ℕ
  pub result : ParseResult

abbrev underscored : ℕ → ℕ
underscored c = if c == b'.' then b'_' else c

unfoldable pub native_section_name : Format → List ℕ → List ℕ
native_section_name Format.macho [] = []
native_section_name Format.macho (c ∷ cs) =
    if c == b'.' then b'_' ∷ b'_' ∷ map underscored cs else c ∷ cs
native_section_name Format.pe name =
    if same_text name (codes ".abix.metadata")
    then codes ".abix"
    else if same_text name (codes ".abix.names")
    then codes ".abix.n"
    else name
native_section_name Format.elf name = name
native_section_name Format.unknown name = name

unfoldable pub find_section : List Section → List ℕ → Option Section
find_section [] name = none
find_section (s ∷ ss) name =
    let rest = find_section ss name in if same_text s.name name then some s else rest

unfoldable pub find_export : List Export → List ℕ → Option Export
find_export [] name = none
find_export (r ∷ rs) name =
    let rest = find_export rs name in if same_text r.name name then some r else rest

unfoldable pub find_region : BinaryImage → List ℕ → Option Section
find_region image canonical =
    find_section image.result.sections (native_section_name image.result.target.format canonical)

-- The extent of the region inside of a PE section of 24 bytes or more: past the private header, if there
-- is one of version 1 whose fields fit.
unfoldable pub skip_pe_header : List ℕ → ℕ → ℕ → Parse (ℕ × ℕ)
skip_pe_header data_ offset extent = do
  a ← byte data_ offset
  b ← byte data_ (offset + 1)
  i ← byte data_ (offset + 2)
  x ← byte data_ (offset + 3)
  if not (a == b'A' && b == b'B' && i == b'I' && x == b'X') then parsed (offset, extent) else (do
    version ← read_u16 data_ (offset + 4)
    header_size ← read_u16 data_ (offset + 6)
    region_offset ← read_u32 data_ (offset + 12)
    region_size ← read_u32 data_ (offset + 16)
    parsed (
        if version == 1
          && leb 24 header_size
          && leb header_size region_offset
          && leb (region_offset +₆₄ region_size) extent
        then (offset +₆₄ region_offset, region_size)
        else (offset, extent)))

-- content.assign(data_ + offset, data_ + offset + length)
unfoldable pub assign : List ℕ → ℕ → ℕ → Parse (List ℕ)
assign data_ offset zero = parsed []
assign data_ offset (suc n) = do
  b ← byte data_ offset
  rest ← assign data_ (offset + 1) n
  parsed (b ∷ rest)

abbrev pub is_pe_format : Format → Bool
is_pe_format Format.pe = true
is_pe_format Format.elf = false
is_pe_format Format.macho = false
is_pe_format Format.unknown = false

-- The section that carries the region, and the copy of its bytes.
unfoldable pub read_content : BinaryImage → Section → Parse (List ℕ)
read_content image section = do
  require (not (section.file_size == 0 && ltb 0 section.size)) no_file_content
  require (in_bounds section.file_offset section.file_size (length image.data_))
      region_out_of_bounds
  (offset, extent) ←
      (if is_pe_format image.result.target.format && leb 24 section.file_size
        then skip_pe_header image.data_ section.file_offset section.file_size
        else parsed (section.file_offset, section.file_size))
  assign image.data_ offset extent

unfoldable pub read_region : BinaryImage → List ℕ → Parse (List ℕ)
read_region image canonical = elim (find_region image canonical) [
  | none ↦ refused section_not_found
  | some section ↦ read_content image section
]

unfoldable pub detect_format : List ℕ → Parse Format
detect_format data_ = do
  elf ← is_elf data_
  if elf then parsed Format.elf else (do
    macho ← is_macho data_
    if macho
        then parsed Format.macho
        else (do pe ← is_pe data_; parsed (if pe then Format.pe else Format.unknown)))

unfoldable pub parse_as : Format → List ℕ → Parse ParseResult
parse_as Format.elf data_ = parse_elf data_
parse_as Format.macho data_ = parse_macho data_
parse_as Format.pe data_ = parse_pe data_
parse_as Format.unknown data_ = refused unsupported_binary

unfoldable pub parse_binary_image : List ℕ → Parse BinaryImage
parse_binary_image data_ = do
  format ← detect_format data_
  result ← parse_as format data_
  parsed (record { data_ = data_; result = result })
