-- ===== src/Dll/Object/Calls.antt =====
-- DLL/Object.h: what the calls of an object do to the modules that it opened.
use abix.Prelude.{
  ℕ, ◌+◌, ◌≡◌, refl, ◌∙◌, arith, Bool, true, false, Bool-cases, ◌==◌, inl, inr, List, [], ◌∷◌,
  Option, none, some,
}
use abix.Dll.Object.{
  Image, Control, Domain, Answers, World, grace_period, bounded_reclaim, retire_image,
  retire_previous, load, unload_impl, force_unload, destroy_control, set_reclaim_timeout_ms,
}
use abix.Dll.Object.Accounts.{times, handles}
use abix.Dll.Object.Accounts.{current, Keeps}

-- The calls of a program.
pub data Call : Type 0 where
  loads : Answers → List ℕ → Call
  unloads : Bool → Answers → Call
  forces : Call
  sets_timeout : ℕ → Call
  destroys : Call

module _ {D : Type 0} (dom : Domain D) where
  unfoldable pub run : Call → World D → Option (World D)
  run (loads a path) w = elim (load dom a path w) [
    | none ↦ none
    | some (ok, error, after) ↦ some after
  ]
  run (unloads bounded a) w = some (unload_impl dom bounded a w).2
  run forces w = some (force_unload w)
  run (sets_timeout ms) w = some (set_reclaim_timeout_ms ms w)
  run destroys w = some (destroy_control dom w)

  unfoldable pub run_all : List Call → World D → Option (World D)
  run_all [] w = some w
  run_all (c ∷ cs) w = elim (run c w) [ none ↦ none | some after ↦ run_all cs after ]

  module _ (k : Keeps dom) where
    retired-grace_period :
        (bounded : Bool) (ms : ℕ) (img : Image) (d : D)
        → k.retired (grace_period dom bounded ms img d).1.1 ≡ img.handle ∷ k.retired d
    unfolding grace_period
    retired-grace_period true ms img d =
        k.retired-synchronize_until (dom.retire_token d img).1 ms ∙ k.retired-token d img
    retired-grace_period false ms img d =
        let base = dom.synchronize_eager d in
        let eager = k.retired-synchronize_eager d in
        k.retired-synchronize (dom.retire_token base img).1
        ∙ k.retired-token base img
        ∙ rw eager refl

    retired-retire_image :
        (c : Control) (img : Image) (d : D)
        → k.retired (retire_image dom c img d).1 ≡ img.handle ∷ k.retired d
    unfolding retire_image
    retired-retire_image c img d =
        let eager = k.retired-eager d img.index in
        retired-grace_period (bounded_reclaim dom c) c.reclaim_timeout_ms img
          (dom.retire_eager d img.index)
        ∙ rw eager refl

    -- The previous image goes to the domain.
    pub record Handed (previous : Option Image) (c : Control) (w after : World D) : Type 0 where
      pub opened_kept : after.opened ≡ w.opened
      pub closed_kept : after.closed ≡ w.closed
      pub is_current : current after ≡ c.image
      pub handed :
          (h : ℕ)
          → times h (k.retired after.domain)
            ≡ times h (k.retired w.domain) + times h (handles previous)

    pub retire_previous-Handed :
        (previous : Option Image) (c : Control) (w : World D)
        → Handed previous c w (retire_previous dom previous c w)
    unfolding retire_previous times
    retire_previous-Handed none c w = record {
      opened_kept = refl;
      closed_kept = refl;
      is_current = refl;
      handed = λ h. omega arith;
    }
    retire_previous-Handed (some img) c w = record {
      opened_kept = refl;
      closed_kept = refl;
      is_current = refl;
      handed = λ h. rw (retired-retire_image c img w.domain) (one_more h);
    }
      where
        one_more :
            (h : ℕ)
            → times h (img.handle ∷ k.retired w.domain)
              ≡ times h (k.retired w.domain) + times h (img.handle ∷ [])
        one_more h = elim (Bool-cases (img.handle == h)) [
          | inl hit ↦ rw hit (omega arith)
          | inr miss ↦ rw miss (omega arith)
        ]
