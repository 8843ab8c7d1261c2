-- ===== src/Binary/Pe/Exports.antt =====
-- include/SKL/ABIX/Binary/PE.h: the export directory, and the adapter as a whole.
use abix.Prelude.{
  ℕ, zero, suc, ◌+◌, ◌-◌, ◌*◌, ◌%◌, ◌^◌, not, ◌||◌, ◌==◌, ltb, if◌then◌else◌, List, [], ◌∷◌, none,
  some, length,
}
use abix.Binary.Reader.{Parse, parsed, ◌>>=◌, ◌+₆₄◌, in_bounds, read_u16, read_u32, read_name}
use abix.Binary.Image.{Format, OperatingSystem, Endianness, Export, ParseResult}
use abix.Binary.Pe.{PeHeader, SectionRange, pe_header, pe_architecture, pe_sections, rva_to_offset}

-- The fields of the export directory that the loop uses, the three tables by their offsets in the file.
pub record ExportTables : Type 0 where
  pub ordinal_base : ℕ
  pub names_offset : ℕ
  pub functions_offset : ℕ
  pub ordinals_offset : ℕ

module _ (image : List ℕ) where
  -- The loop over the names; the tests that break out of it end the list.
  unfoldable pub pe_names : List SectionRange → ExportTables → ℕ → ℕ → ℕ → Parse (List Export)
  pe_names ranges t image_base i zero = parsed []
  pe_names ranges t image_base i (suc left) =
      if not (in_bounds (t.names_offset + i * 4) 4 (length image))
      then parsed []
      else if not (in_bounds (t.ordinals_offset + i * 2) 2 (length image))
      then parsed []
      else (do
        name_rva ← read_u32 image (t.names_offset + i * 4)
        elim (rva_to_offset image ranges name_rva) [
          | none ↦ parsed []
          | some name_offset ↦ (do
            ordinal ← read_u16 image (t.ordinals_offset + i * 2)
            if not (in_bounds (t.functions_offset + ordinal * 4) 4 (length image))
                then parsed []
                else (do
                  function_rva ← read_u32 image (t.functions_offset + ordinal * 4)
                  name ← read_name image (length image - name_offset) name_offset
                  rest ← pe_names ranges t image_base (i + 1) left
                  parsed (
                      if length name == 0
                      then rest
                      else record {
                        name = name;
                        address = image_base +₆₄ function_rva;
                        ordinal = (t.ordinal_base + ordinal) % 2 ^ 32;
                      }
                        ∷ rest)))
        ])

  -- The export directory at its offset in the file.
  unfoldable pub pe_directory : List SectionRange → ℕ → ℕ → Parse (List Export)
  pe_directory ranges image_base offset = do
    ordinal_base ← read_u32 image (offset + 16)
    name_count ← read_u32 image (offset + 24)
    functions_rva ← read_u32 image (offset + 28)
    names_rva ← read_u32 image (offset + 32)
    ordinals_rva ← read_u32 image (offset + 36)
    elim (rva_to_offset image ranges names_rva) [
      | none ↦ parsed []
      | some names_offset ↦ elim (rva_to_offset image ranges functions_rva) [
        | none ↦ parsed []
        | some functions_offset ↦ elim (rva_to_offset image ranges ordinals_rva) [
          | none ↦ parsed []
          | some ordinals_offset ↦
              pe_names ranges
                (record {
                  ordinal_base = ordinal_base;
                  names_offset = names_offset;
                  functions_offset = functions_offset;
                  ordinals_offset = ordinals_offset;
                })
                image_base 0 name_count
        ]
      ]
    ]

  unfoldable pub pe_exports : PeHeader → List SectionRange → Parse (List Export)
  pe_exports h ranges = do
    export_rva ← read_u32 image h.data_directory
    export_size ← read_u32 image (h.data_directory + 4)
    if export_rva == 0 || ltb export_size 40
        then parsed []
        else elim (rva_to_offset image ranges export_rva) [
          | none ↦ parsed []
          | some offset ↦
              if in_bounds offset 40 (length image)
              then pe_directory ranges h.image_base offset
              else parsed []
        ]

  unfoldable pub parse_pe : Parse ParseResult
  parse_pe = do
    h ← pe_header image
    (sections, ranges) ← pe_sections image h.image_base h.section_table 0 h.section_count
    exports ← pe_exports h ranges
    parsed (record {
      target = record {
        format = Format.pe;
        os = OperatingSystem.windows;
        architecture = pe_architecture image h.machine;
        endian = Endianness.little;
        pointer_size = if h.is_plus then 8 else 4;
        image_base = h.image_base;
      };
      sections = sections;
      exports = exports;
    })
