-- ===== src/Binary/Macho.antt =====
-- include/SKL/ABIX/Binary/MachO.h: the Mach-O adapter. `image` is the file's bytes; a null pointer is
-- the empty image, which the first test refuses alike.
pub mod Bounds
pub mod Exports
use abix.Prelude.{
  ℕ, zero, suc, ◌+◌, ◌-◌, ◌*◌, ◌/◌, ◌%◌, ◌^◌, bit_and, Bool, true, false, not, ◌&&◌, ◌||◌, ◌==◌,
  leb, ltb, if◌then◌else◌, List, [], ◌∷◌, ◌++◌, Option, none, some, length, is_some, get_or,
}
use abix.Binary.Reader.{
  ParseError, not_macho, truncated_macho_header, commands_out_of_bounds, truncated_command,
  malformed_command, malformed_segment, too_many_sections, Parse, fault, exhausted, refused, parsed,
  ◌>>=◌, ◌>>◌, require, ◌+₆₄◌, in_bounds, byte, read_u32, read_u64, read_name,
}
use abix.Binary.Image.{
  Format, OperatingSystem, Architecture, Endianness, Section, Export, Target, ParseResult,
}

pub record MachoHeader : Type 0 where
  pub is64 : Bool
  pub header_size : ℕ
  pub command_count : ℕ
  pub commands_size : ℕ

pub record Symtab : Type 0 where
  pub symoff : ℕ
  pub nsyms : ℕ
  pub stroff : ℕ
  pub strsize : ℕ

-- What the walk of the commands gathers: `has_symtab`, `saw_text_base` and the sections.
pub record Walk : Type 0 where
  pub symtab : Option Symtab
  pub image_base : Option ℕ
  pub sections : List Section

abbrev pub pick : Bool → ℕ → ℕ → ℕ
pick true a b = a
pick false a b = b

module _ (image : List ℕ) where
  -- The first four bytes are read only if they are there.
  unfoldable pub is_macho : Parse Bool
  is_macho =
      if ltb (length image) 4
      then parsed false
      else (do magic ← read_u32 image 0; parsed (magic == 0xFEED_FACF || magic == 0xFEED_FACE))

  unfoldable pub macho_header : Parse MachoHeader
  macho_header = do
    known ← is_macho
    require known not_macho
    magic ← read_u32 image 0
    require (leb (pick (magic == 0xFEED_FACF) 32 28) (length image)) truncated_macho_header
    command_count ← read_u32 image 16
    commands_size ← read_u32 image 20
    require (in_bounds (pick (magic == 0xFEED_FACF) 32 28) commands_size (length image))
        commands_out_of_bounds
    parsed (record {
      is64 = magic == 0xFEED_FACF;
      header_size = pick (magic == 0xFEED_FACF) 32 28;
      command_count = command_count;
      commands_size = commands_size;
    })

  abbrev architecture_of : ℕ → Architecture
  architecture_of cpu =
      if cpu == 7
      then Architecture.x86
      else if cpu == 0x0100_0007
      then Architecture.x86_64
      else if cpu == 12
      then Architecture.arm32
      else if cpu == 0x0100_000C
      then Architecture.arm64
      else Architecture.unknown

  -- A field of 8 bytes in a 64-bit image, and of 4 bytes in a 32-bit one.
  unfoldable pub read_word : Bool → ℕ → Parse ℕ
  read_word true offset = read_u64 image offset
  read_word false offset = read_u32 image offset

  unfoldable pub macho_section : Bool → ℕ → Parse Section
  macho_section is64 header = do
    name ← read_name image 16 header
    segment ← read_name image 16 (header + 16)
    address ← read_word is64 (header + 32)
    size ← read_word is64 (header + pick is64 40 36)
    file_offset ← read_u32 image (header + pick is64 48 40)
    alignment ← read_u32 image (header + pick is64 52 44)
    flags ← read_u32 image (header + pick is64 64 56)
    parsed (record {
      name = name;
      segment = segment;
      file_offset = file_offset;
      file_size = if file_offset == 0 && ltb 0 size then 0 else size;
      address = address;
      size = size;
      alignment = alignment;
      type = 0;
      flags = flags;
    })

  unfoldable pub macho_sections : Bool → ℕ → ℕ → ℕ → Parse (List Section)
  macho_sections is64 start s zero = parsed []
  macho_sections is64 start s (suc left) = do
    section ← macho_section is64 (start + s * pick is64 80 68)
    rest ← macho_sections is64 start (s + 1) left
    parsed (section ∷ rest)

  -- A segment command at the cursor; its name is read before its size is tested.
  unfoldable pub macho_segment : Bool → ℕ → ℕ → Walk → Parse Walk
  macho_segment is64 cursor cmdsize w = do
    segment_name ← read_name image 16 (cursor + 8)
    require (leb (pick is64 72 56) cmdsize) malformed_segment
    base ← read_word is64 (cursor + 24)
    section_count ← read_u32 image (cursor + pick is64 64 48)
    require (leb (pick is64 72 56 + section_count * pick is64 80 68) cmdsize) too_many_sections
    sections ← macho_sections is64 (cursor + pick is64 72 56) 0 section_count
    parsed (record w {
      image_base = if is_some w.image_base then w.image_base else some base;
      sections = w.sections ++ sections;
    })

  unfoldable pub macho_symtab : ℕ → Walk → Parse Walk
  macho_symtab cursor w = do
    symoff ← read_u32 image (cursor + 8)
    nsyms ← read_u32 image (cursor + 12)
    stroff ← read_u32 image (cursor + 16)
    strsize ← read_u32 image (cursor + 20)
    parsed (record w {
      symtab = some (record { symoff = symoff; nsyms = nsyms; stroff = stroff; strsize = strsize });
    })

  -- A command of a known kind, after the tests of its size.
  unfoldable pub macho_command : Bool → ℕ → ℕ → ℕ → Walk → Parse Walk
  macho_command is64 cursor cmd cmdsize w =
      if cmd == 2 && leb 24 cmdsize
      then macho_symtab cursor w
      else if cmd == pick is64 0x19 1
      then macho_segment is64 cursor cmdsize w
      else parsed w

  -- The walk, with `left` commands left; `end` is `commands_end`.
  unfoldable pub macho_commands : Bool → ℕ → ℕ → ℕ → Walk → Parse Walk
  macho_commands is64 end cursor zero w = parsed w
  macho_commands is64 end cursor (suc left) w = do
    require (leb (cursor +₆₄ 8) end) truncated_command
    cmd ← read_u32 image cursor
    cmdsize ← read_u32 image (cursor + 4)
    require (leb 8 cmdsize && leb (cursor +₆₄ cmdsize) end) malformed_command
    next ← macho_command is64 cursor cmd cmdsize w
    macho_commands is64 end (cursor +₆₄ cmdsize) left next

  -- The entry of a symbol: external and defined in a section, with a name.
  unfoldable pub macho_symbol : Bool → Symtab → ℕ → Parse (List Export)
  macho_symbol is64 t entry = do
    n_strx ← read_u32 image entry
    n_type ← byte image (entry + 4)
    n_value ← read_word is64 (entry + 8)
    if bit_and n_type 1 == 0 || not (bit_and n_type 0x0e == 0x0e) || n_strx == 0
        then parsed []
        else (do
          name ←
              read_name image ((t.stroff +₆₄ t.strsize) - (t.stroff +₆₄ n_strx))
                (t.stroff +₆₄ n_strx)
          parsed (
              if length name == 0
              then []
              else record { name = name; address = n_value; ordinal = 0 } ∷ []))

  unfoldable pub macho_symbols : Bool → Symtab → ℕ → ℕ → Parse (List Export)
  macho_symbols is64 t i zero = parsed []
  macho_symbols is64 t i (suc left) = do
    found ← macho_symbol is64 t (t.symoff + i * pick is64 16 12)
    rest ← macho_symbols is64 t (i + 1) left
    parsed (found ++ rest)

  unfoldable pub macho_exports : Bool → Option Symtab → Parse (List Export)
  macho_exports is64 none = parsed []
  macho_exports is64 (some t) =
      if in_bounds t.symoff (t.nsyms * pick is64 16 12) (length image)
        && in_bounds t.stroff t.strsize (length image)
      then macho_symbols is64 t 0 t.nsyms
      else parsed []

  unfoldable pub parse_macho : Parse ParseResult
  parse_macho = do
    h ← macho_header
    cpu ← read_u32 image 4
    w ←
        macho_commands h.is64 (h.header_size +₆₄ h.commands_size) h.header_size h.command_count
          (record { symtab = none; image_base = none; sections = [] })
    exports ← macho_exports h.is64 w.symtab
    parsed (record {
      target = record {
        format = Format.macho;
        os = OperatingSystem.macos;
        architecture = architecture_of cpu;
        endian = Endianness.little;
        pointer_size = pick h.is64 8 4;
        image_base = elim w.image_base [ none ↦ 0 | some base ↦ base ];
      };
      sections = w.sections;
      exports = exports;
    })
