-- ===== src/Repo/Store/Laws.antt =====
-- Rows and entries after a write (Repo/Store).
use mckmt.Base.{
  ℕ, ◌≡◌, refl, ◌≢◌, Option, none, some, List, [], ◌∷◌, arith, ◌==◌, Option-cases, Bool-cases, inl,
  inr,
}
use mckmt.Repo.Store.{find, update, remove}

module _ {A : Type 0} (key : A → ℕ) where
  -- A change that leaves the key of each row alone.
  abbrev pub Keeps : (A → Option A) → Type 0
  Keeps change = (r r' : A) → change r ≡ some r' → key r' ≡ key r

  pub key-find : (i : ℕ) (rs : List A) (r : A) → find key i rs ≡ some r → key r ≡ i
  unfolding find
  key-find i [] r h = cc
  key-find i (x ∷ rs) r h = ground (arith, key-find i rs r)

  -- After an update of the row with key i, by what its change gives.
  pub find-update_self :
      (i : ℕ) (change : A → Option A) (rs : List A) (r r' : A)
      → Keeps change
      → find key i rs ≡ some r
      → change r ≡ some r'
      → find key i (update key i change rs) ≡ some r'
  unfolding find update
  find-update_self i change [] r r' k h c = cc
  find-update_self i change (x ∷ rs) r r' k h c = elim (Bool-cases (key x == i)) [
    | inl e ↦ let same : x ≡ r = ground arith in ground (arith, k r r' c, key-find i (x ∷ rs) r h)
    | inr e ↦ ground (arith, find-update_self i change rs r r' k)
  ]

  pub find-update_ne :
      (i j : ℕ) (change : A → Option A) (rs : List A)
      → Keeps change
      → i ≢ j
      → find key j (update key i change rs) ≡ find key j rs
  unfolding find update
  find-update_ne i j change [] k n = refl
  find-update_ne i j change (x ∷ rs) k n = elim (Option-cases (change x)) [
    | inl e ↦ ground (arith, find-update_ne i j change rs k n)
    | inr (x', e) ↦ ground (arith, find-update_ne i j change rs k n, k x x' e)
  ]

  pub find-remove_self : (i : ℕ) (rs : List A) → find key i (remove key i rs) ≡ none
  unfolding find remove
  find-remove_self i [] = refl
  find-remove_self i (x ∷ rs) = ground (arith, find-remove_self i rs)

  pub find-remove_ne :
      (i j : ℕ) (rs : List A) → i ≢ j → find key j (remove key i rs) ≡ find key j rs
  unfolding find remove
  find-remove_ne i j [] n = refl
  find-remove_ne i j (x ∷ rs) n = ground (arith, find-remove_ne i j rs n)
