-- ===== src/Binary/Reader.antt =====
-- include/SKL/ABIX/Binary/BinaryImage.h, namespace detail: the reads of the format adapters. The image
-- is the list of its bytes. A read outside of it, which the language leaves undefined, is `fault`; a
-- loop that did not end within its fuel is `exhausted`; `return false` with an error is `refused`.
pub mod Bounds
use abix.Prelude.{
  ℕ, zero, suc, ◌+◌, ◌-◌, ◌*◌, ◌%◌, ◌^◌, Bool, true, false, ◌&&◌, ◌==◌, leb, if◌then◌else◌, List,
  [], ◌∷◌, Option, none, some, length, get_elem?,
}

pub data ParseError : Type 0 where
  not_elf truncated_identification unsupported_class unsupported_endianness : ParseError
  truncated_elf_header unexpected_section_header_size no_section_headers : ParseError
  section_table_out_of_bounds name_index_out_of_range name_table_out_of_bounds : ParseError
  not_pe truncated_pe_header optional_out_of_bounds truncated_optional : ParseError
  unsupported_magic optional_too_small : ParseError
  not_macho truncated_macho_header commands_out_of_bounds truncated_command : ParseError
  malformed_command malformed_segment too_many_sections unsupported_binary : ParseError
  section_not_found no_file_content region_out_of_bounds : ParseError

pub data Parse (A : Type 0) : Type 0 where
  fault : Parse A
  exhausted : Parse A
  refused : ParseError → Parse A
  parsed : A → Parse A

infixl 5 ◌>>=◌
unfoldable pub ◌>>=◌ : {A B : Type 0} → Parse A → (A → Parse B) → Parse B
fault >>= k = fault
exhausted >>= k = exhausted
refused e >>= k = refused e
parsed a >>= k = k a

infixl 5 ◌>>◌
unfoldable pub ◌>>◌ : {A B : Type 0} → Parse A → Parse B → Parse B
fault >> n = fault
exhausted >> n = exhausted
refused e >> n = refused e
parsed a >> n = n

-- `if (!test) { error = ...; return false; }`
unfoldable pub require : Bool → ParseError → Parse (Unit {0})
require true e = parsed tt
require false e = refused e

-- `size_t` and `uint64_t` arithmetic.
infixl 60 ◌+₆₄◌
abbrev pub ◌+₆₄◌ : ℕ → ℕ → ℕ
a +₆₄ b = (a + b) % 2 ^ 64

unfoldable pub in_bounds : ℕ → ℕ → ℕ → Bool
in_bounds offset length size = leb offset size && leb length (size - offset)

module _ (data_ : List ℕ) where
  unfoldable pub byte : ℕ → Parse ℕ
  byte offset = elim (get_elem? data_ offset) [ none ↦ fault | some b ↦ parsed b ]

  -- The loop over the bytes, the least significant first.
  unfoldable pub read_le : ℕ → ℕ → Parse ℕ
  read_le zero offset = parsed 0
  read_le (suc n) offset = do
    low ← byte offset
    high ← read_le n (offset + 1)
    parsed (low + 256 * high)

  unfoldable pub read_u16 : ℕ → Parse ℕ
  read_u16 offset = read_le 2 offset

  unfoldable pub read_u32 : ℕ → Parse ℕ
  read_u32 offset = read_le 4 offset

  unfoldable pub read_u64 : ℕ → Parse ℕ
  read_u64 offset = read_le 8 offset

  -- The bytes from the cursor up to a zero, `left` bytes at most: the loops that stop at an end, and
  -- `read_fixed_name` and `read_pe_name` with their capacities.
  unfoldable pub read_name : ℕ → ℕ → Parse (List ℕ)
  read_name zero cursor = parsed []
  read_name (suc left) cursor = do
    c ← byte cursor
    if c == 0 then parsed [] else (do rest ← read_name left (cursor + 1); parsed (c ∷ rest))
