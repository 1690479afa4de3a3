-- ===== src/Tests/Caches.antt =====
-- The manager of the cache, over a Redis that is a list of entries.
use mckmt.Base.{
  ℕ, ◌≡◌, refl, ap, sym, subst, ◌∙◌, ◌≢◌, ◌↔◌, Bool, true, false, not, Option, none, some, List, [],
  ◌∷◌, ◌++◌, map, filter, Result, ok, codes, list_eq, list_eq_iff, any, any_iff, arith,
  if◌then◌else◌, Bool-cases, all_iff, ==_iff, ◌==◌, ◌&&◌, inl, inr,
}
use mckmt.Auth.Middleware.{Bytes}
use mckmt.Auth.Oidc.{has_prefix}
use mckmt.Auth.Policies.Members.{IsMember}
use mckmt.Redis.{
  Client, cluster_resources_key, cluster_resource_key, resources_prefix,
  invalidate_cluster_resources,
}
use mckmt.Redis.Keys.{IsPlain, cluster_resources_key-injective}
use mckmt.Redis.Laws.{IsRedis, IsLiteral, invalidate_cluster_resources_keeps}

abbrev Entries : Type 0
Entries = List (Bytes × Bytes)

abbrev value : Entries → Bytes → Option Bytes
value [] k = none
value ((j, b) ∷ es) k = if list_eq j k then some b else value es k

abbrev all_but_last : Bytes → Bytes
all_but_last [] = []
all_but_last (c ∷ []) = []
all_but_last (c ∷ d ∷ cs) = c ∷ all_but_last (d ∷ cs)

abbrev is_named : List Bytes → Bytes × Bytes → Bool
is_named ks e = any (λ k. list_eq k e.0) ks

abbrev client : Client Entries
client = record {
  set = λ k b e es. (ok tt, (k, b) ∷ es);
  get = λ k es. (ok (value es k), es);
  del = λ ks es. (ok tt, filter (λ e. not (is_named ks e)) es);
  exists = λ k es. (ok (if list_eq k [] then 0 else 1), es);
  set_nx = λ k b e es. (ok true, (k, b) ∷ es);
  incr = λ k es. (ok 1, es);
  incr_by = λ k n es. (ok n, es);
  expire = λ k e es. (ok tt, es);
  ttl = λ k es. (ok 1, es);
  keys = λ p es.
      (ok (filter (λ k. has_prefix k (all_but_last p)) (map (λ (e : Bytes × Bytes). e.0) es)), es);
  flush_db = λ es. (ok tt, []);
  ping = λ es. (ok tt, es);
}

named_iff : (ks : List Bytes) (k : Bytes) → (any (λ j. list_eq j k) ks ≡ true) ↔ IsMember k ks
named_iff ks k = any_iff (λ j. j ≡ k) (λ j. list_eq j k) (λ j. list_eq_iff j k) ks

value-filter :
    (ks : List Bytes) (k : Bytes) (es : Entries)
    → value (filter (λ e. not (is_named ks e)) es) k
      ≡ (if any (λ j. list_eq j k) ks then none else value es k)
value-filter ks k [] = ground arith
value-filter ks k ((j, b) ∷ es) = elim (Bool-cases (list_eq j k)) [
  | inl e ↦
      let same = ap (λ x. any (λ i. list_eq i x) ks) ((list_eq_iff j k).0 e) in
      ground (arith, value-filter ks k es, same)
  | inr e ↦ ground (arith, value-filter ks k es)
]

all_but_last_star : (p : Bytes) → all_but_last (p ++ codes "*") ≡ p
all_but_last_star [] = refl
all_but_last_star (c ∷ []) = refl
all_but_last_star (c ∷ d ∷ p) = ap (λ q. c ∷ q) (all_but_last_star (d ∷ p))

-- A key has a value exactly if it is the key of an entry.
held_iff :
    (k : Bytes) (es : Entries)
    → IsMember k (map (λ (e : Bytes × Bytes). e.0) es) ↔ (value es k ≢ none)
held_iff k [] = (λ h. absurd h, λ h. h refl)
held_iff k ((j, b) ∷ es) = elim (Bool-cases (list_eq j k)) [
  | inl e ↦ (λ h q. ground arith, λ h. inl ((list_eq_iff j k).0 e))
  | inr e ↦
      let out : value ((j, b) ∷ es) k ≡ value es k = rw e refl in
      (
        λ h q. elim h [
          | inl f ↦ ground (arith, (list_eq_iff j k).1 f)
          | inr m ↦ (held_iff k es).0 m (sym out ∙ q)
        ],
        λ h. inr ((held_iff k es).1 (λ q. h (out ∙ q))),
      )
]

absent_lem : (b : Bool) → (b ≡ true → ⊥) → b ≡ false
absent_lem true h = absurd (h refl)
absent_lem false h = refl

sifted_iff :
    (t : Bytes → Bool) (j : Bytes) (xs : List Bytes)
    → IsMember j (filter t xs) ↔ (IsMember j xs × (t j ≡ true))
sifted_iff t j [] = ground arith
sifted_iff t j (x ∷ xs) = elim (Bool-cases (t x)) [
  | inl e ↦ rw e (
      (
        λ h. elim h [
          | inl f ↦ (inl f, ap t (sym f) ∙ e)
          | inr m ↦ let (a, b) = (sifted_iff t j xs).0 m in (inr a, b)
        ],
        λ (h, q). elim h [ inl f ↦ inl f | inr m ↦ inr ((sifted_iff t j xs).1 (m, q)) ],
      ))
  | inr e ↦ rw e (
      (
        λ m. let (a, b) = (sifted_iff t j xs).0 m in (inr a, b),
        λ (h, q). elim h [
          | inl f ↦ absurd (clash (sym q ∙ ap t (sym f) ∙ e))
          | inr m ↦ (sifted_iff t j xs).1 (m, q)
        ],
      ))
]
  where
    clash : true ≡ false → ⊥
    clash h = ground arith

client-IsRedis : IsRedis client value
client-IsRedis = record {
  get_lem = λ k o s s' h. (ground arith, λ j. ground arith);
  set_self = λ k b e s s' h. ground (arith, (list_eq_iff k k).1 refl);
  del_member = λ k ks s s' h m.
      let found = (named_iff ks k).1 m in
      ap (λ (x : Result (Unit {0}) × Entries). value x.1 k) (sym h)
      ∙ value-filter ks k s
      ∙ ap (λ c. if c then none else value s k) found;
  del_other = λ k ks s s' h m.
      let out = absent_lem (any (λ j. list_eq j k) ks) (λ e. m ((named_iff ks k).0 e)) in
      ap (λ (x : Result (Unit {0}) × Entries). value x.1 k) (sym h)
      ∙ value-filter ks k s
      ∙ ap (λ c. if c then none else value s k) out;
  keys_lem = λ p ks s s' l h j.
      let names = map (λ (e : Bytes × Bytes). e.0) s in
      let found : filter (λ k. has_prefix k (all_but_last (p ++ codes "*"))) names ≡ ks =
        ground arith in
      let kept = ap (λ q. filter (λ k. has_prefix k q) names) (sym (all_but_last_star p)) ∙ found in
      let (a, b) = sifted_iff (λ k. has_prefix k p) j names in
      let (c, d) = held_iff j s in
      let both : IsMember j (filter (λ k. has_prefix k p) names)
          ↔ ((value s j ≢ none) × (has_prefix j p ≡ true)) =
        (λ m. (c (a m).0, (a m).1), λ (q, r). b (d q, r)) in
      (
        subst (λ xs. IsMember j xs ↔ ((value s j ≢ none) × (has_prefix j p ≡ true))) kept both,
        ground arith,
      );
}

-- The id "7", a kind, a namespace and a name.
abbrev id : Bytes
id = codes "7"

abbrev pods : Bytes
pods = codes "Pod"

-- A list of resources and a single resource are cached.
abbrev entries : Entries
entries =
    (cluster_resources_key id pods [], 1 ∷ [])
    ∷ (cluster_resource_key id pods [] (codes "web"), 2 ∷ [])
    ∷ []

abbrev is_ordinary : ℕ → Bool
is_ordinary c = not (c == 42) && not (c == 63) && not (c == 91) && not (c == 92)

literal : IsLiteral (resources_prefix id)
literal =
    (all_iff (λ c. (c ≢ 42) × (c ≢ 63) × (c ≢ 91) × (c ≢ 92)) is_ordinary
        (λ c. ground (arith, ==_iff c 42, ==_iff c 63, ==_iff c 91, ==_iff c 92))
        (resources_prefix id)).0
      refl

invalidate_cluster_resources_keeps_example :
    let s' = (invalidate_cluster_resources client id entries).1 in
    (value s' (cluster_resources_key id pods []) ≡ none)
    × (value s' (cluster_resource_key id pods [] (codes "web"))
        ≡ value entries (cluster_resource_key id pods [] (codes "web")))
    × (value s' (codes "user:7") ≡ value entries (codes "user:7"))
unfolding invalidate_cluster_resources cluster_resources_key cluster_resource_key
invalidate_cluster_resources_keeps_example =
    invalidate_cluster_resources_keeps client value client-IsRedis id pods [] (codes "web")
      (codes "user:7") entries (invalidate_cluster_resources client id entries).1 literal refl refl

IsPlain-id : IsPlain id
IsPlain-id = ground arith

IsPlain-pods : IsPlain pods
IsPlain-pods = ground arith

cluster_resources_key-injective_example : (id ≡ id) × (pods ≡ pods) × (codes "web" ≡ codes "web")
cluster_resources_key-injective_example =
    cluster_resources_key-injective id id pods pods (codes "web") (codes "web") IsPlain-id
      IsPlain-id IsPlain-pods IsPlain-pods refl
