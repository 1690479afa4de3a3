-- ===== src/Base/Order.antt =====
-- ORDER BY a time DESC, LIMIT and OFFSET.
use mckmt.Base.Tests.{leb, if◌then◌else◌, Bool-cases}
use mckmt.Base.Lists.{length, take, drop, All}
use Prim.Native.Nat.{ℕ, zero, suc, ◌+◌, ◌≤◌}
use mathlib.Core.Path.{◌≡◌, refl, sym, ap}
use mathlib.Core.Logic.{inl, inr}
use mathlib.Core.Bool.{Bool}
use mathlib.Core.List.{List, [], ◌∷◌, ◌++◌}
use native.Mathlib.Omega.{arith}

module _ {A : Type 0} (time : A → ℕ) where
  unfoldable pub insert_latest : A → List A → List A
  insert_latest x [] = x ∷ []
  insert_latest x (y ∷ ys) =
      let rest = insert_latest x ys in if leb (time y) (time x) then x ∷ y ∷ ys else y ∷ rest

  unfoldable pub latest_first : List A → List A
  unfolding insert_latest
  latest_first [] = []
  latest_first (x ∷ xs) = insert_latest x (latest_first xs)

  -- No element is later than one before it.
  abbrev pub IsLatestFirst : List A → Type 0
  IsLatestFirst [] = Unit {0}
  IsLatestFirst (x ∷ xs) = All (λ y. time y ≤ time x) xs × IsLatestFirst xs

  insert_latest-All :
      (m : ℕ) (x : A) (ys : List A)
      → time x ≤ m
      → All (λ y. time y ≤ m) ys
      → All (λ y. time y ≤ m) (insert_latest x ys)
  unfolding insert_latest
  insert_latest-All m x [] h a = ground arith
  insert_latest-All m x (y ∷ ys) h a = ground (arith, insert_latest-All m x ys h a.1)

  All-mono : (m n : ℕ) (ys : List A) → m ≤ n → All (λ y. time y ≤ m) ys → All (λ y. time y ≤ n) ys
  All-mono m n [] h a = tt
  All-mono m n (y ∷ ys) h a = (omega (arith, h, a.0), All-mono m n ys h a.1)

  insert_latest-IsLatestFirst :
      (x : A) (ys : List A) → IsLatestFirst ys → IsLatestFirst (insert_latest x ys)
  unfolding insert_latest
  insert_latest-IsLatestFirst x [] v = (tt, tt)
  insert_latest-IsLatestFirst x (y ∷ ys) v = elim (Bool-cases (leb (time y) (time x))) [
    | inl e ↦
        let h : time y ≤ time x = ground arith in rw e ((h, All-mono (time y) (time x) ys h v.0), v)
    | inr e ↦
        let h : time x ≤ time y = ground arith in
        rw e (insert_latest-All (time y) x ys h v.0, insert_latest-IsLatestFirst x ys v.1)
  ]

  pub latest_first-IsLatestFirst : (xs : List A) → IsLatestFirst (latest_first xs)
  unfolding latest_first
  latest_first-IsLatestFirst [] = tt
  latest_first-IsLatestFirst (x ∷ xs) =
      insert_latest-IsLatestFirst x (latest_first xs) (latest_first-IsLatestFirst xs)

  insert_latest-length : (x : A) (ys : List A) → length (insert_latest x ys) ≡ suc (length ys)
  unfolding insert_latest
  insert_latest-length x [] = refl
  insert_latest-length x (y ∷ ys) = ground (arith, insert_latest-length x ys)

  pub length-latest_first : (xs : List A) → length (latest_first xs) ≡ length xs
  unfolding latest_first
  length-latest_first [] = refl
  length-latest_first (x ∷ xs) =
      ground (arith, insert_latest-length x (latest_first xs), length-latest_first xs)

module _ {A : Type 0} where
  abbrev pub filter : (A → Bool) → List A → List A
  filter p [] = []
  filter p (x ∷ xs) = let rest = filter p xs in if p x then x ∷ rest else rest

  -- LIMIT and OFFSET
  abbrev pub page : ℕ → ℕ → List A → List A
  page limit offset xs = take limit (drop offset xs)

  take_nil : (n : ℕ) → take {A = A} n [] ≡ []
  take_nil zero = refl
  take_nil (suc n) = refl

  drop_nil : (n : ℕ) → drop {A = A} n [] ≡ []
  drop_nil zero = refl
  drop_nil (suc n) = refl

  take-take-drop : (m n : ℕ) (xs : List A) → take m xs ++ take n (drop m xs) ≡ take (m + n) xs
  take-take-drop zero n xs = ground arith
  take-take-drop (suc m) zero [] = ground arith
  take-take-drop (suc m) (suc n) [] = ground (arith, take_nil (suc m + suc n))
  take-take-drop (suc m) n (x ∷ xs) =
      let e : suc m + n ≡ suc (m + n) = omega arith in
      rw e (ap (λ l. x ∷ l) (take-take-drop m n xs))

  drop-drop : (m o : ℕ) (xs : List A) → drop m (drop o xs) ≡ drop (o + m) xs
  drop-drop m zero xs = ground arith
  drop-drop zero (suc o) [] = ground arith
  drop-drop (suc m) (suc o) [] = ground (arith, drop_nil (suc o + suc m))
  drop-drop m (suc o) (x ∷ xs) =
      let e : suc o + m ≡ suc (o + m) = omega arith in rw e (drop-drop m o xs)

  -- A page and the one behind it are one page.
  pub append-page :
      (m n offset : ℕ) (xs : List A)
      → page m offset xs ++ page n (offset + m) xs ≡ page (m + n) offset xs
  append-page m n offset xs = rw (sym (drop-drop m offset xs)) (take-take-drop m n (drop offset xs))
