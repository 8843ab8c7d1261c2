-- ===== src/Binary/Image.antt =====
-- include/SKL/ABIX/Binary/BinaryImage.h: what a format adapter produces. A string is the list of its
-- bytes.
use abix.Prelude.{ℕ, Bool, true, false, ◌&&◌, ◌==◌, List, [], ◌∷◌}

pub data Format : Type 0 where
  unknown elf macho pe : Format

pub data OperatingSystem : Type 0 where
  unknown linux windows macos freebsd android : OperatingSystem

pub data Architecture : Type 0 where
  unknown x86 x86_64 arm32 arm64 riscv32 riscv64 : Architecture

pub data Endianness : Type 0 where
  little big : Endianness

pub record Section : Type 0 where
  pub name : List ℕ
  pub segment : List ℕ
  pub file_offset : ℕ
  pub file_size : ℕ
  pub address : ℕ
  pub size : ℕ
  pub alignment : ℕ
  pub type : ℕ
  pub flags : ℕ

pub record Export : Type 0 where
  pub name : List ℕ
  pub address : ℕ
  pub ordinal : ℕ

pub record Target : Type 0 where
  pub format : Format
  pub os : OperatingSystem
  pub architecture : Architecture
  pub endian : Endianness
  pub pointer_size : ℕ
  pub image_base : ℕ

pub record ParseResult : Type 0 where
  pub target : Target
  pub sections : List Section
  pub exports : List Export

-- Equality of strings.
unfoldable pub same_text : List ℕ → List ℕ → Bool
same_text [] [] = true
same_text (x ∷ xs) (y ∷ ys) = x == y && same_text xs ys
same_text _ _ = false
