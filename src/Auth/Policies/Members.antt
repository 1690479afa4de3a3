-- ===== src/Auth/Policies/Members.antt =====
-- Membership in a list, for the proofs on policies (Auth/Policies).
use mckmt.Base.{
  ◌≡◌, refl, ap, subst, sym, ◌↔◌, Bool, true, List, [], ◌∷◌, ◌++◌, map, filter, Some, inl, inr,
  arith, Bool-cases,
}

module _ {A : Type 0} (a : A) where
  abbrev pub IsMember : List A → Type 0
  IsMember = Some (λ x. x ≡ a)

  pub IsMember-left : (xs ys : List A) → IsMember xs → IsMember (xs ++ ys)
  IsMember-left [] ys h = absurd h
  IsMember-left (x ∷ xs) ys (inl h) = inl h
  IsMember-left (x ∷ xs) ys (inr h) = inr (IsMember-left xs ys h)

  pub IsMember-right : (xs ys : List A) → IsMember ys → IsMember (xs ++ ys)
  IsMember-right [] ys h = h
  IsMember-right (x ∷ xs) ys h = inr (IsMember-right xs ys h)

pub IsMember-map :
    {A B : Type 0} → (f : A → B) (a : A) (xs : List A) → IsMember a xs → IsMember (f a) (map f xs)
IsMember-map f a [] h = absurd h
IsMember-map f a (x ∷ xs) (inl h) = inl (ap f h)
IsMember-map f a (x ∷ xs) (inr h) = inr (IsMember-map f a xs h)

module _ {A : Type 0} (P : A → Type 0) where
  pub Some-IsMember : (xs : List A) → Some P xs → (x : A) × IsMember x xs × P x
  Some-IsMember [] h = absurd h
  Some-IsMember (x ∷ xs) (inl h) = (x, inl refl, h)
  Some-IsMember (x ∷ xs) (inr h) = let (y, m, p) = Some-IsMember xs h in (y, inr m, p)

  pub IsMember-Some : (xs : List A) (x : A) → IsMember x xs → P x → Some P xs
  IsMember-Some [] x m p = absurd m
  IsMember-Some (y ∷ xs) x (inl m) p = inl (subst P (sym m) p)
  IsMember-Some (y ∷ xs) x (inr m) p = inr (IsMember-Some xs x m p)

module _ {A : Type 0} (P : A → Type 0) (t : A → Bool) where
  -- A member of the rows that a WHERE keeps.
  pub kept_iff : (xs : List A) → Some P (filter t xs) ↔ Some (λ x. (t x ≡ true) × P x) xs
  kept_iff [] = ground arith
  kept_iff (x ∷ xs) = elim (Bool-cases (t x)) [
    | inl e ↦ rw e (ground (arith, kept_iff xs))
    | inr e ↦ rw e (ground (arith, kept_iff xs))
  ]

pub pointwise_iff :
    {A : Type 0} (P Q : A → Type 0) → ((x : A) → P x ↔ Q x) → (xs : List A) → Some P xs ↔ Some Q xs
pointwise_iff P Q e [] = ground arith
pointwise_iff P Q e (x ∷ xs) = ground (arith, e x, pointwise_iff P Q e xs)

pub chain : {A B C : Type 0} → (A ↔ B) → (B ↔ C) → A ↔ C
chain (f, g) (h, k) = (λ x. h (f x), λ x. g (k x))

pub flip : {A B : Type 0} → (A ↔ B) → B ↔ A
flip (f, g) = (g, f)
