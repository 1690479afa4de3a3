-- ===== src/Redis/Keys.antt =====
-- Which keys of the cache are the same (Redis).
use mckmt.Base.{◌≡◌, refl, ap, sym, ◌∙◌, ◌≢◌, [], ◌∷◌, ◌++◌, All, codes, drop, arith, if◌then◌else◌}
use mckmt.Auth.Middleware.{Bytes, bytes_eq}
use mckmt.Redis.{cluster_resources_key}

-- A text without a colon.
abbrev pub IsPlain : Bytes → Type 0
IsPlain = All (λ c. c ≢ 58)

-- A colon ends a plain text.
split_at_colon :
    (xs ys us vs : Bytes)
    → IsPlain xs
    → IsPlain us
    → xs ++ 58 ∷ ys ≡ us ++ 58 ∷ vs
    → (xs ≡ us) × (ys ≡ vs)
split_at_colon [] ys [] vs p q e = (refl, ground arith)
split_at_colon [] ys (u ∷ us) vs p q e = absurd (ground arith)
split_at_colon (x ∷ xs) ys [] vs p q e = absurd (ground arith)
split_at_colon (x ∷ xs) ys (u ∷ us) vs p q e = ground (arith, split_at_colon xs ys us vs)

plain_no_colon : (xs us vs : Bytes) → IsPlain xs → xs ≡ us ++ 58 ∷ vs → ⊥
plain_no_colon [] [] vs p e = ground arith
plain_no_colon [] (u ∷ us) vs p e = ground arith
plain_no_colon (x ∷ xs) [] vs p e = ground arith
plain_no_colon (x ∷ xs) (u ∷ us) vs p e = ground (arith, plain_no_colon xs us vs)

-- The part of a key behind ":resources:".
abbrev tail_of : Bytes → Bytes → Bytes
tail_of kind namespace = if bytes_eq namespace [] then kind else kind ++ 58 ∷ namespace

after_resources : Bytes → Bytes
after_resources t = 114 ∷ 101 ∷ 115 ∷ 111 ∷ 117 ∷ 114 ∷ 99 ∷ 101 ∷ 115 ∷ 58 ∷ t

tail-injective :
    (kind kind' ns ns' : Bytes)
    → IsPlain kind
    → IsPlain kind'
    → tail_of kind ns ≡ tail_of kind' ns'
    → (kind ≡ kind') × (ns ≡ ns')
tail-injective kind kind' [] [] p q e = (e, refl)
tail-injective kind kind' [] (n ∷ ns) p q e = absurd (plain_no_colon kind kind' (n ∷ ns) p e)
tail-injective kind kind' (n ∷ ns) [] p q e = absurd (plain_no_colon kind' kind (n ∷ ns) q (sym e))
tail-injective kind kind' (n ∷ ns) (m ∷ ms) p q e =
    split_at_colon kind (n ∷ ns) kind' (m ∷ ms) p q e

key_lem :
    (i kind ns : Bytes)
    → cluster_resources_key i kind ns
      ≡ codes "cluster:" ++ (i ++ 58 ∷ after_resources (tail_of kind ns))
unfolding cluster_resources_key after_resources
key_lem i kind [] = refl
key_lem i kind (n ∷ ns) = refl

-- Of ids and kinds without a colon: two lists of resources share a key of the cache only if they are of
-- the same cluster, the same kind and the same namespace.
pub cluster_resources_key-injective :
    (i i' kind kind' ns ns' : Bytes)
    → IsPlain i
    → IsPlain i'
    → IsPlain kind
    → IsPlain kind'
    → cluster_resources_key i kind ns ≡ cluster_resources_key i' kind' ns'
    → (i ≡ i') × (kind ≡ kind') × (ns ≡ ns')
unfolding after_resources
cluster_resources_key-injective i i' kind kind' ns ns' p p' q q' e =
    let f = sym (key_lem i kind ns) ∙ e ∙ key_lem i' kind' ns' in
    let g : i ++ 58 ∷ after_resources (tail_of kind ns)
        ≡ i' ++ 58 ∷ after_resources (tail_of kind' ns') =
      ap (drop 8) f in
    let (a, b) =
      split_at_colon i (after_resources (tail_of kind ns)) i' (after_resources (tail_of kind' ns'))
        p p' g in
    let (c, d) = tail-injective kind kind' ns ns' q q' (ap (drop 10) b) in (a, c, d)
