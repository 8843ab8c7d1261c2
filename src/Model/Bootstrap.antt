-- ===== src/Model/Bootstrap.antt =====
-- include/SKL/ABIX/Model/Bootstrap.h. `M` is the type of the metadata that a record points to, and
-- `C` that of the consumer's context; a consumer takes the records and returns the new context.
use abix.Prelude.{
  refl, inl, inr, ap₂, Option-cases, ℕ, ◌≡◌, ◌≢◌, ◌↔◌, ◌⊎◌, arith, Bool, true, not, ◌&&◌, ◌==◌,
  if◌then◌else◌, List, [], Option, none, some, all, elems, is_some,
}
use abix.Model.Abi.{Pointer}

abbrev pub bootstrap_format_version : ℕ
bootstrap_format_version = 1

abbrev pub bootstrap_little_endian : ℕ
bootstrap_little_endian = 1

pub record BootRecord (M : Type 0) : Type 0 where
  pub type_hash : ℕ
  pub size : ℕ
  pub align : ℕ
  pub metadata : Option M

pub record BootImage (M C : Type 0) : Type 0 where
  pub records : Pointer (BootRecord M)
  pub count : ℕ
  pub format_version : ℕ
  pub byte_order : ℕ
  pub consume : Option (List (BootRecord M) → C → C)

pub data BootStatus : Type 0 where
  ok invalid_image unsupported_format unsupported_byte_order : BootStatus

module _ {M : Type 0} where
  unfoldable pub valid_record : BootRecord M → Bool
  valid_record r =
      not (r.type_hash == 0) && not (r.size == 0) && not (r.align == 0) && is_some r.metadata

  -- The records that the loop and the consumer read.
  abbrev pub records_of : Pointer (BootRecord M) → ℕ → List (BootRecord M)
  records_of none count = []
  records_of (some records) count = elems count records

is_ok : (s : BootStatus) → (s ≡ ok) ⊎ (s ≢ ok)
is_ok ok = inl refl
is_ok s = inr (ground arith)

module _ {M C : Type 0} where
  -- The tests in their order, then the loop, then the call of the consumer.
  unfoldable pub abix_bootstrap : BootImage M C → C → BootStatus × C
  abix_bootstrap image context =
      if not (image.format_version == bootstrap_format_version)
      then (unsupported_format, context)
      else if not (image.byte_order == bootstrap_little_endian)
      then (unsupported_byte_order, context)
      else if not (image.count == 0) && not (is_some image.records)
      then (invalid_image, context)
      else elim image.consume [
        | none ↦ (invalid_image, context)
        | some consume ↦
            if all valid_record (records_of image.records image.count)
            then (ok, consume (records_of image.records image.count) context)
            else (invalid_image, context)
      ]

  -- What the loader asks of an image.
  pub record IsLoadable (image : BootImage M C) : Type 0 where
    pub format : image.format_version ≡ 1
    pub order : image.byte_order ≡ 1
    pub readable : (image.count ≡ 0) ⊎ (is_some image.records ≡ true)
    pub consumer : is_some image.consume ≡ true
    pub valid : all valid_record (records_of image.records image.count) ≡ true

  pub abix_bootstrap_parts :
      (image : BootImage M C) (context : C)
      → (((abix_bootstrap image context).0 ≡ ok) ↔ IsLoadable image)
        × ((abix_bootstrap image context).0 ≢ ok → (abix_bootstrap image context).1 ≡ context)
        × ((consume : List (BootRecord M) → C → C)
            → image.consume ≡ some consume
            → (abix_bootstrap image context).0 ≡ ok
            → (abix_bootstrap image context).1
              ≡ consume (records_of image.records image.count) context)
  unfolding abix_bootstrap
  abix_bootstrap_parts image context =
      ((accepts, λ l. ground (arith, l.format)), λ h. ground arith, λ consume e h. ground arith)
    where
      accepts : (abix_bootstrap image context).0 ≡ ok → IsLoadable image
      accepts h = ground arith

  -- The loader accepts exactly the loadable images, and hands the consumer all their records; for
  -- any other image it reports an error and leaves the context as it was.
  pub abix_bootstrap_lem :
      (image : BootImage M C) (context : C)
      → (IsLoadable image
          × ((consume : List (BootRecord M) → C → C) × (image.consume ≡ some consume)
              × (abix_bootstrap image context
                  ≡ (ok, consume (records_of image.records image.count) context))))
        ⊎ ((IsLoadable image → ⊥)
            × ((abix_bootstrap image context).0 ≢ ok)
            × ((abix_bootstrap image context).1 ≡ context))
  abix_bootstrap_lem image context =
      let (exact, kept, fed) = abix_bootstrap_parts image context in
      elim (is_ok (abix_bootstrap image context).0) [
        | inr n ↦ inr (λ l. n (exact.1 l), n, kept n)
        | inl e ↦ elim (Option-cases image.consume) [
          | inl absent ↦ absurd (ground (arith, (exact.0 e).consumer))
          | inr (consume, given) ↦
              inl (exact.0 e, (consume, given, ap₂ (λ a b. (a, b)) e (fed consume given e)))
        ]
      ]
