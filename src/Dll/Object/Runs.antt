-- ===== src/Dll/Object/Runs.antt =====
-- DLL/Object.h: the account of an object's modules over any sequence of calls.
use abix.Prelude.{
  ℕ, ◌+◌, ◌≡◌, ◌≢◌, refl, sym, subst, ◌∙◌, arith, Bool, false, Bool-cases, ◌==◌, ltb, inl, inr, [],
  ◌∷◌, Option, none, some,
}
use abix.Dll.Object.{
  State, zombie, Image, Control, Domain, Answers, World, unload_module, lock_writer, swap_image,
  closed_image, unload_from, force_from, set_timeout_of, destroy_of,
}
use abix.Dll.Object.Accounts.{times, handles, IsSearchable}
use abix.Dll.Object.Accounts.{current, Keeps, Sound}
use abix.Dll.Object.Calls.{retire_previous-Handed}

module _ {D : Type 0} (dom : Domain D) (k : Keeps dom) where
  times-unload_module :
      (h m : ℕ) (w : World D)
      → h ≢ 0
      → times h (unload_module m w).closed ≡ times h w.closed + times h (m ∷ [])
  unfolding unload_module times
  times-unload_module h m w real = elim (Bool-cases (m == 0)) [
    | inl null ↦
        let other : (m == h) ≡ false = ground (arith, null, real) in rw (null, other) (omega arith)
    | inr open' ↦ elim (Bool-cases (m == h)) [
      | inl hit ↦ rw (open', hit) (omega arith)
      | inr miss ↦ rw (open', miss) (omega arith)
    ]
  ]

  -- After a swap, where the image that is swapped in was counted as one more opened module.
  pub swap_image-Sound :
      (image : Option Image) (state : State) (c : Control) (w : World D)
      → ((img : Image) → image ≡ some img → IsSearchable img)
      → ((h : ℕ)
          → h ≢ 0
          → times h w.opened
            ≡ times h w.closed
              + times h (k.retired w.domain)
              + times h (handles c.image)
              + times h (handles image))
      → Sound dom k (swap_image dom image state c w)
  unfolding swap_image
  swap_image-Sound image state c w fit balance =
      let c' : Control = record c { image = image; state = state } in
      let x = retire_previous-Handed dom k c.image c' w in
      record {
        balanced = λ h real.
            let before = balance h real in
            let moved = x.handed h in
            rw (x.opened_kept, x.closed_kept, x.is_current) (omega (arith, before, moved));
        searchable = λ img at. fit img (sym x.is_current ∙ at);
      }

  pub counted :
      (w : World D) (i : Option Image)
      → Sound dom k w
      → current w ≡ i
      → (h : ℕ) → h ≢ 0
      → times h w.opened ≡ times h w.closed + times h (k.retired w.domain) + times h (handles i)
  counted w i s e h real =
      subst
        (λ j.
          times h w.opened ≡ times h w.closed + times h (k.retired w.domain) + times h (handles j))
        e (s.balanced h real)

  pub image_of : (w : World D) (c : Control) → w.control ≡ some c → current w ≡ c.image
  image_of w c e = rw e refl

  pub unload_from-Sound :
      (o : Option Control) (bounded : Bool) (a : Answers) (w : World D)
      → w.control ≡ o
      → Sound dom k w
      → Sound dom k (unload_from dom o bounded a w).2
  unfolding unload_from times
  unload_from-Sound none bounded a w e s = s
  unload_from-Sound (some c) bounded a w e s = elim (Bool-cases (ltb 1 w.strongs)) [
    | inl held ↦ rw held s
    | inr single ↦ elim (Bool-cases (lock_writer bounded c a)) [
      | inr late ↦ rw (single, late) s
      | inl locked ↦
          rw (single, locked)
            (swap_image-Sound none zombie c w (λ img none'. cc)
              (λ h real. let b = counted w c.image s (image_of w c e) h real in omega (arith, b)))
    ]
  ]

  pub record Unloaded (w after : World D) : Type 0 where
    pub opened_kept : after.opened ≡ w.opened
    pub domain_kept : after.domain ≡ w.domain
    pub control_kept : after.control ≡ w.control
    pub path_kept : after.path ≡ w.path

  pub unload_module-Unloaded : (m : ℕ) (w : World D) → Unloaded w (unload_module m w)
  unfolding unload_module
  unload_module-Unloaded m w = elim (Bool-cases (m == 0)) [
    | inl null ↦
        rw null
          (record { opened_kept = refl; domain_kept = refl; control_kept = refl; path_kept = refl })
    | inr open' ↦
        rw open'
          (record { opened_kept = refl; domain_kept = refl; control_kept = refl; path_kept = refl })
  ]

  -- A module that is closed at once.
  pub unload_module-Sound :
      (m : ℕ) (w : World D)
      → ((img : Image) → current w ≡ some img → IsSearchable img)
      → ((h : ℕ)
          → h ≢ 0
          → times h w.opened
            ≡ times h w.closed
              + times h (m ∷ [])
              + times h (k.retired w.domain)
              + times h (handles (current w)))
      → Sound dom k (unload_module m w)
  unload_module-Sound m w fit balance =
      let u = unload_module-Unloaded m w in
      let same : current (unload_module m w) ≡ current w = rw u.control_kept refl in
      record {
        balanced = λ h real.
            let b = balance h real in
            let c = times-unload_module h m w real in
            rw (u.opened_kept, u.domain_kept, same) (omega (arith, b, c));
        searchable = λ img at. fit img (sym same ∙ at);
      }

  closed_image-Sound :
      (i : Option Image) (w : World D)
      → current w ≡ none
      → ((h : ℕ)
          → h ≢ 0
          → times h w.opened
            ≡ times h w.closed + times h (k.retired w.domain) + times h (handles i))
      → Sound dom k (closed_image i w)
  unfolding times
  closed_image-Sound none w gone balance = record {
    balanced = λ h real. rw gone (balance h real);
    searchable = λ img at. (let bad : none ≡ some img = sym gone ∙ at in cc);
  }
  closed_image-Sound (some img) w gone balance =
      unload_module-Sound img.handle w (λ i at. (let bad : none ≡ some i = sym gone ∙ at in cc))
        (λ h real. let b = balance h real in rw gone (omega (arith, b)))

  pub force_from-Sound :
      (o : Option Control) (w : World D)
      → w.control ≡ o
      → Sound dom k w
      → Sound dom k (force_from o w)
  unfolding force_from
  force_from-Sound none w e s = s
  force_from-Sound (some c) w e s =
      closed_image-Sound c.image
        (record w { control = some (record c { image = none; state = zombie }) }) refl
        (λ h real. counted w c.image s (image_of w c e) h real)

  pub set_timeout_of-Sound :
      (o : Option Control) (ms : ℕ) (w : World D)
      → w.control ≡ o
      → Sound dom k w
      → Sound dom k (set_timeout_of o ms w)
  unfolding set_timeout_of
  set_timeout_of-Sound none ms w e s = s
  set_timeout_of-Sound (some c) ms w e s = record {
    balanced = λ h real. counted w c.image s (image_of w c e) h real;
    searchable = λ img at. s.searchable img (image_of w c e ∙ at);
  }

  pub destroy_of-Sound :
      (o : Option Control) (w : World D)
      → w.control ≡ o
      → Sound dom k w
      → Sound dom k (destroy_of dom o w)
  unfolding destroy_of times
  destroy_of-Sound none w e s = s
  destroy_of-Sound (some c) w e s =
      let x = retire_previous-Handed dom k c.image c w in
      record {
        balanced = λ h real.
            let b = counted w c.image s (image_of w c e) h real in
            let moved = x.handed h in rw (x.opened_kept, x.closed_kept) (omega (arith, b, moved));
        searchable = λ img at. cc;
      }
