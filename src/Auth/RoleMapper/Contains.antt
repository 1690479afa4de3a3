-- ===== src/Auth/RoleMapper/Contains.antt =====
-- What `contains` tests (Auth/RoleMapper).
use mckmt.Base.{
  ℕ, ◌+◌, ◌-◌, ◌≤◌, zero, suc, ◌≡◌, refl, sym, ap, ◌∙◌, ◌↔◌, inl, inr, true, subst, List, [], ◌∷◌,
  ◌++◌, ltb, length, take, drop, append-take-drop, length-append, list_eq, list_eq_iff, arith,
  Bool-cases,
}
use mckmt.Auth.RoleMapper.{contains_from, contains_substring, contains}

abbrev pub IsIn : List ℕ → List ℕ → Type 0
IsIn s sub = (pre : List ℕ) × (post : List ℕ) × (s ≡ pre ++ (sub ++ post))

take_prefix : (sub post : List ℕ) → take (length sub) (sub ++ post) ≡ sub
take_prefix [] post = refl
take_prefix (x ∷ sub) post = ap (λ l. x ∷ l) (take_prefix sub post)

contains_from_found : (n : ℕ) (s sub : List ℕ) → contains_from n s sub ≡ true → IsIn s sub
unfolding contains_from
contains_from_found zero s sub h = (
  [],
  drop (length sub) s,
  ground (arith, append-take-drop (length sub) s, list_eq_iff (take (length sub) s) sub),
)
contains_from_found (suc n) s sub h = elim (Bool-cases (list_eq (take (length sub) s) sub)) [
  | inl e ↦ (
    [],
    drop (length sub) s,
    ground (arith, append-take-drop (length sub) s, list_eq_iff (take (length sub) s) sub),
  )
  | inr e ↦
      let (pre, post, p) = contains_from_found n (drop 1 s) sub (ground arith) in
      longer s pre post p
]
  where
    longer : (s pre post : List ℕ) → drop 1 s ≡ pre ++ (sub ++ post) → IsIn s sub
    longer [] pre post p = (pre, post, p)
    longer (x ∷ s) pre post p = (x ∷ pre, post, ap (λ l. x ∷ l) p)

contains_from_there :
    (n : ℕ) (pre sub post : List ℕ)
    → length pre ≤ n
    → contains_from n (pre ++ (sub ++ post)) sub ≡ true
unfolding contains_from
contains_from_there zero [] sub post h = ground (arith, take_prefix sub post, list_eq_iff sub sub)
contains_from_there zero (x ∷ pre) sub post h = absurd (omega (arith, h))
contains_from_there (suc n) [] sub post h =
    ground (arith, take_prefix sub post, list_eq_iff sub sub)
contains_from_there (suc n) (x ∷ pre) sub post h =
    ground (arith, contains_from_there n pre sub post)

append_nil : (xs : List ℕ) → xs ++ [] ≡ xs
append_nil [] = refl
append_nil (x ∷ xs) = ap (λ l. x ∷ l) (append_nil xs)

contains_found : (s sub : List ℕ) → contains s sub ≡ true → IsIn s sub
unfolding contains contains_substring
contains_found s sub h = elim (Bool-cases (list_eq s sub)) [
  | inl e ↦ ([], [], (list_eq_iff s sub).0 e ∙ sym (append_nil sub))
  | inr e ↦ elim (Bool-cases (list_eq (take (length sub) s) sub)) [
    | inl f ↦ (
      [],
      drop (length sub) s,
      ground (arith, append-take-drop (length sub) s, list_eq_iff (take (length sub) s) sub),
    )
    | inr f ↦ elim (Bool-cases (list_eq (drop (length s - length sub) s) sub)) [
      | inl g ↦ (
        take (length s - length sub) s,
        [],
        ground (
          arith,
          append-take-drop (length s - length sub) s,
          list_eq_iff (drop (length s - length sub) s) sub,
          append_nil sub,
        ),
      )
      | inr g ↦ contains_from_found (length s - length sub) s sub (ground arith)
    ]
  ]
]

empty : (xs : List ℕ) → length xs ≡ 0 → xs ≡ []
empty [] h = refl
empty (x ∷ xs) h = absurd (omega (arith, h))

contains_there : (pre sub post : List ℕ) → contains (pre ++ (sub ++ post)) sub ≡ true
unfolding contains contains_substring
contains_there pre sub post =
    let s = pre ++ (sub ++ post) in
    let n : length s ≡ length pre + (length sub + length post) =
      length-append pre (sub ++ post) ∙ ap (λ k. length pre + k) (length-append sub post) in
    let there : contains_from (length s - length sub) s sub ≡ true =
      contains_from_there (length s - length sub) pre sub post (omega (arith, n)) in
    elim (Bool-cases (ltb (length sub) (length s))) [
      | inl l ↦ ground arith
      | inr l ↦
          let p : pre ≡ [] = empty pre (ground arith) in
          let q : post ≡ [] = empty post (ground arith) in
          let e : s ≡ sub = ground (arith, append_nil sub) in
          let f : list_eq s sub ≡ true = (list_eq_iff s sub).1 e in ground arith
    ]

-- The tests of `contains` together say that the second text stands somewhere in the first.
pub contains_iff : (s sub : List ℕ) → (contains s sub ≡ true) ↔ IsIn s sub
contains_iff s sub = (
  contains_found s sub,
  λ (pre, post, e). subst (λ t. contains t sub ≡ true) (sym e) (contains_there pre sub post),
)
