-- ===== src/Dll/Object/Fetch.antt =====
-- DLL/Object.h: what load_image opens, closes and hands over.
use abix.Prelude.{
  ℕ, ◌+◌, ◌≡◌, ◌≢◌, ◌⊎◌, refl, sym, subst, arith, true, false, Bool-cases, ◌==◌, inl, inr, [], ◌∷◌,
  Option, none, some,
}
use abix.Runtime.Search.{Table, HashIndex, table_magic}
use abix.Runtime.Search.Filled.{IsIndexOf}
use abix.Dll.Object.{Image, Answers, World, is_wrong, unload_module, load_image}
use abix.Dll.Object.Accounts.{times, handles, IsSearchable, IsSmall, index_for-searchable}

module _ {D : Type 0} (a : Answers) (w : World D) where
  -- What load_image comes to: an image that can be searched and that was opened, or nothing that stays open.
  pub record Fetched (image : Option Image) (after : World D) : Type 0 where
    pub control_kept : after.control ≡ w.control
    pub domain_kept : after.domain ≡ w.domain
    pub path_kept : after.path ≡ w.path
    pub opened_once :
        (h : ℕ)
        → h ≢ 0
        → times h after.opened + times h w.closed
          ≡ times h w.opened + times h after.closed + times h (handles image)
    pub source :
        (img : Image) → image ≡ some img → (img.handle ≡ a.handle) × (img.export_table ≡ a.table)
    pub fit : (img : Image) → image ≡ some img → IsSearchable img

  failed_fetch :
      (a.handle == 0) ≡ false
      → Fetched none (unload_module a.handle (record w { opened = a.handle ∷ w.opened }))
  unfolding unload_module times
  failed_fetch some_handle = rw some_handle (record {
    control_kept = refl;
    domain_kept = refl;
    path_kept = refl;
    opened_once = λ h positive. both_sides h;
    source = λ img e. cc;
    fit = λ img e. cc;
  })
    where
      both_sides :
          (h : ℕ)
          → times h (a.handle ∷ w.opened) + times h w.closed
            ≡ times h w.opened + times h (a.handle ∷ w.closed) + 0
      both_sides h = elim (Bool-cases (a.handle == h)) [
        | inl hit ↦ rw hit (omega arith)
        | inr miss ↦ rw miss (omega arith)
      ]

  fresh_fetch :
      (index : HashIndex)
      → is_wrong a.table ≡ false
      → ((t : Table) → a.table ≡ some t → (index.slots ≡ none) ⊎ IsIndexOf t index)
      → Fetched
          (some (record { handle = a.handle; export_table = a.table; index = index }))
          (record w { opened = a.handle ∷ w.opened })
  unfolding times
  fresh_fetch index right x = record {
    control_kept = refl;
    domain_kept = refl;
    path_kept = refl;
    opened_once = λ h positive. one_more h;
    source = λ img e. (cc, cc);
    fit = λ img e t at.
        let same : img ≡ record { handle = a.handle; export_table = a.table; index = index } = cc in
        let at' : a.table ≡ some t = subst (λ i. i.export_table ≡ some t) same at in
        (
          right_magic t at',
          subst (λ i. (i.index.slots ≡ none) ⊎ IsIndexOf t i.index) (sym same) (x t at'),
        );
  }
    where
      one_more :
          (h : ℕ)
          → times h (a.handle ∷ w.opened) + times h w.closed
            ≡ times h w.opened + times h w.closed + times h (a.handle ∷ [])
      one_more h = elim (Bool-cases (a.handle == h)) [
        | inl hit ↦ rw hit (omega arith)
        | inr miss ↦ rw miss (omega arith)
      ]

      right_magic : (t : Table) → a.table ≡ some t → t.magic ≡ table_magic
      right_magic t at = elim (Bool-cases (t.magic == table_magic)) [
        | inl hit ↦ ground (arith, hit)
        | inr miss ↦ (let bad : true ≡ false = rw (at, miss) at right in cc)
      ]

  nothing-Fetched : Fetched none w
  unfolding times
  nothing-Fetched = record {
    control_kept = refl;
    domain_kept = refl;
    path_kept = refl;
    opened_once = λ h positive. omega arith;
    source = λ img e. cc;
    fit = λ img e. cc;
  }

  pub load_image-Fetched :
      IsSmall a
      → (image : Option Image) × (after : World D) × (load_image a w ≡ some (image, after))
        × Fetched image after
  unfolding load_image
  load_image-Fetched small = elim (Bool-cases (a.handle == 0)) [
    | inl null ↦ (none, w, rw null refl, nothing-Fetched)
    | inr open' ↦ elim (Bool-cases (is_wrong a.table)) [
      | inl wrong ↦ (none, _, rw (open', wrong) refl, failed_fetch open')
      | inr right ↦ elim (Bool-cases a.image_allocated) [
        | inr out ↦ (none, _, rw (open', right, out) refl, failed_fetch open')
        | inl room ↦
            let (index, e, x) = index_for-searchable a.slots_allocated a.table small in
            (_, _, rw (open', right, room, e) refl, fresh_fetch index right x)
      ]
    ]
  ]
