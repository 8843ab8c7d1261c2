-- ===== src/Dll/Object/Accounts.antt =====
-- DLL/Object.h: where the modules that an object opened are, and what an image is to its table.
use abix.Prelude.{
  ℕ, suc, ◌+◌, ◌^◌, ◌≤◌, ◌≡◌, ◌≢◌, ◌⊎◌, refl, subst, Bool, true, false, Bool-cases, ◌==◌, leb,
  if◌then◌else◌, inl, inr, List, [], ◌∷◌, Option, none, some, length,
}
use abix.Runtime.Search.{Table, HashIndex, table_magic, build}
use abix.Runtime.Search.Filled.{IsIndexOf, build-IsIndexOf}
use abix.Dll.Object.{Image, Domain, Answers, World, empty_index, hash_threshold, index_for}

unfoldable pub times : ℕ → List ℕ → ℕ
times h [] = 0
times h (x ∷ xs) = let rest = times h xs in if x == h then suc rest else rest

abbrev pub handles : Option Image → List ℕ
handles none = []
handles (some img) = img.handle ∷ []

abbrev pub current : {D : Type 0} → World D → Option Image
current w = elim w.control [ none ↦ none | some c ↦ c.image ]

-- A list that only retire_token writes, with the module of the image that it is given.
pub record Keeps {D : Type 0} (dom : Domain D) : Type 0 where
  pub retired : D → List ℕ
  pub retired-eager : (d : D) (index : HashIndex) → retired (dom.retire_eager d index) ≡ retired d
  pub retired-token :
      (d : D) (img : Image) → retired (dom.retire_token d img).1 ≡ img.handle ∷ retired d
  pub retired-synchronize : (d : D) → retired (dom.synchronize d) ≡ retired d
  pub retired-synchronize_eager : (d : D) → retired (dom.synchronize_eager d) ≡ retired d
  pub retired-synchronize_until :
      (d : D) (ms : ℕ) → retired (dom.synchronize_until d ms).1 ≡ retired d

-- The domain with a ledger of the calls of retire_token on images, which no other call writes.
pub record Ledger (D : Type 0) : Type 0 where
  pub domain : D
  pub handed : List ℕ

-- A domain whose calls of retire_token are entered in the ledger.
abbrev pub logged : {D : Type 0} → Domain D → Domain (Ledger D)
logged dom = record {
  retire_eager = λ l index. record l { domain = dom.retire_eager l.domain index };
  retire_token = λ l img.
      let (token, after) = dom.retire_token l.domain img in
      (token, record { domain = after; handed = img.handle ∷ l.handed });
  synchronize = λ l. record l { domain = dom.synchronize l.domain };
  synchronize_eager = λ l. record l { domain = dom.synchronize_eager l.domain };
  synchronize_until = λ l ms.
      let (proven, after) = dom.synchronize_until l.domain ms in
      (proven, record l { domain = after });
  reclaimed_through = λ l token. dom.reclaimed_through l.domain token;
}

abbrev pub ledger_kept : {D : Type 0} → (dom : Domain D) → Keeps (logged dom)
ledger_kept dom = record {
  retired = λ l. l.handed;
  retired-eager = λ l index. refl;
  retired-token = λ l img. refl;
  retired-synchronize = λ l. refl;
  retired-synchronize_eager = λ l. refl;
  retired-synchronize_until = λ l ms. refl;
}

-- The table of an image has the right magic and its index, where it has one, is built for it.
abbrev pub IsSearchable : Image → Type 0
IsSearchable img =
    (t : Table)
    → img.export_table ≡ some t
    → (t.magic ≡ table_magic) × ((img.index.slots ≡ none) ⊎ IsIndexOf t img.index)

-- At most 2 ^ 30 entries.
abbrev pub IsSmall : Answers → Type 0
IsSmall a = (t : Table) → a.table ≡ some t → length t.entries ≤ 2 ^ 30

-- Every module that was opened was closed, handed to the domain, or is the image's, and only one of these.
pub record Sound {D : Type 0} (dom : Domain D) (k : Keeps dom) (w : World D) : Type 0 where
  pub balanced :
      (h : ℕ)
      → h ≢ 0
      → times h w.opened
        ≡ times h w.closed + times h (k.retired w.domain) + times h (handles (current w))
  pub searchable : (img : Image) → current w ≡ some img → IsSearchable img

-- The same for the ledger.
pub record Accounted {D : Type 0} (w : World (Ledger D)) : Type 0 where
  pub balanced :
      (h : ℕ)
      → h ≢ 0
      → times h w.opened
        ≡ times h w.closed + times h w.domain.handed + times h (handles (current w))
  pub searchable : (img : Image) → current w ≡ some img → IsSearchable img

same_table : {t u : Table} → ◌≡◌ {A = Option Table} (some t) (some u) → t ≡ u
same_table e = cc

-- An index, and what it is to its table.
built_for :
    (b : Bool) (t : Table)
    → length t.entries ≤ 2 ^ 30
    → (index : HashIndex) × (build b t ≡ some index) × ((index.slots ≡ none) ⊎ IsIndexOf t index)
unfolding build
built_for false t small = (empty_index, refl, inl refl)
built_for true t small = let (index, e, x) = build-IsIndexOf t small in (index, e, inr x)

pub index_for-searchable :
    (allocated : Bool) (table : Option Table)
    → ((t : Table) → table ≡ some t → length t.entries ≤ 2 ^ 30)
    → (index : HashIndex) × (index_for allocated table ≡ some index)
      × ((t : Table) → table ≡ some t → (index.slots ≡ none) ⊎ IsIndexOf t index)
unfolding index_for
index_for-searchable allocated none small = (empty_index, refl, λ t e. inl refl)
index_for-searchable allocated (some t) small =
    elim (Bool-cases (leb hash_threshold (length t.entries))) [
      | inr below ↦ (empty_index, rw below refl, λ u e. inl refl)
      | inl above ↦
          let (index, e, x) = built_for allocated t (small t refl) in
          (
            index,
            rw (above, e) refl,
            λ u same. subst (λ v. (index.slots ≡ none) ⊎ IsIndexOf v index) (same_table same) x,
          )
    ]
