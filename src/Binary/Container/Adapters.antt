-- ===== src/Binary/Container/Adapters.antt =====
-- The adapter that parse_binary_image calls is the one that the detection chose.
use abix.Prelude.{ℕ, ◌+◌, ◌==◌, ◌^◌, ◌≤◌, ◌<◌, ◌≡◌, refl, List, length}
use abix.Binary.Reader.{parsed, read_u16, read_u32, read_u64}
use abix.Binary.Reader.Bounds.{Meets, gave_up, met, bind-Meets, bind_eq-Meets, if-Meets, IsBytes}
use abix.Binary.Image.{ParseResult, Format}
use abix.Binary.Elf.{is_elf, header_at}
use abix.Binary.Elf.Bounds.{is_elf-Meets}
use abix.Binary.Elf.Exports.{parse_elf-Meets}
use abix.Binary.Macho.{pick, is_macho}
use abix.Binary.Macho.Exports.{is_macho-Meets, parse_macho-Meets}
use abix.Binary.Pe.{is_pe}
use abix.Binary.Pe.Exports.{}
use abix.Binary.Pe.Bounds.{is_pe-Meets}
use abix.Binary.Pe.Reads.{parse_pe-Meets}
use abix.Binary.Container.{detect_format, parse_as, parse_binary_image}

module _ (data_ : List ℕ) (bytes : IsBytes data_) (small : length data_ < 2 ^ 63) where
  detect_format-Meets : Meets (λ format. Unit {0}) (detect_format data_)
  unfolding detect_format
  detect_format-Meets = bind-Meets (is_elf data_) _ (is_elf-Meets data_ bytes small) (λ elf _.
      if-Meets elf _ _ (λ _. met _ tt)
        (λ _. bind-Meets (is_macho data_) _ (is_macho-Meets data_ bytes small) (λ macho _.
          if-Meets macho _ _ (λ _. met _ tt)
            (λ _. bind-Meets (is_pe data_) _ (is_pe-Meets data_ bytes) (λ pe _. met _ tt)))))

  -- An image of fewer than 2 ^ 63 bytes that, if detected as ELF, has no section header with an entry size
  -- of 2 ^ 63 or more, and, if detected as Mach-O, has its load commands, which begin behind the header of 32
  -- bytes for the 64-bit magic and of 28 bytes otherwise and have the size at offset 20, end at least 16 bytes
  -- before the end of the image: parse_binary_image reads no byte outside of the image and stops, and the image that it returns
  -- is over the same bytes and labelled with the format that detect_format found.
  pub parse_binary_image-Meets :
      ((shoff shnum index entsize : ℕ)
        → detect_format data_ ≡ parsed Format.elf
        → read_u64 data_ 0x28 ≡ parsed shoff
        → read_u16 data_ 0x3C ≡ parsed shnum
        → index < shnum
        → read_u64 data_ (header_at data_ shoff index + 56) ≡ parsed entsize
        → entsize < 2 ^ 63)
      → ((magic commands_size : ℕ)
          → detect_format data_ ≡ parsed Format.macho
          → read_u32 data_ 0 ≡ parsed magic
          → read_u32 data_ 20 ≡ parsed commands_size
          → pick (magic == 0xFEED_FACF) 32 28 + commands_size + 16 ≤ length data_)
      → Meets
          (λ image.
            (image.data_ ≡ data_) × (detect_format data_ ≡ parsed image.result.target.format))
          (parse_binary_image data_)
  unfolding parse_binary_image parse_as
  parse_binary_image-Meets steps slack =
      bind_eq-Meets (detect_format data_) _ detect_format-Meets (λ format found _.
        bind-Meets (parse_as format data_) _ (labelled format found)
          (λ result same. met _ (refl, detected format result found same)))
    where
      labelled :
          (format : Format)
          → detect_format data_ ≡ parsed format
          → Meets (λ result. result.target.format ≡ format) (parse_as format data_)
      labelled Format.elf found =
          parse_elf-Meets data_ bytes small
            (λ shoff shnum index entsize. steps shoff shnum index entsize found)
      labelled Format.macho found =
          parse_macho-Meets data_ bytes small
            (λ magic commands_size. slack magic commands_size found)
      labelled Format.pe found = parse_pe-Meets data_ bytes
      labelled Format.unknown found = gave_up _

      detected :
          (format : Format) (result : ParseResult)
          → detect_format data_ ≡ parsed format
          → result.target.format ≡ format
          → detect_format data_ ≡ parsed result.target.format
      detected format result found same = cc
