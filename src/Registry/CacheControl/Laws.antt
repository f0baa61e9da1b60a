-- ===== src/Registry/CacheControl/Laws.antt =====
-- How cache controls merge (src/registry/cache_control.rs).
use mathlib.Core.List.{Perm, Permᴰ}
use mathlib.Core.Logic.{∥∥₁_elim}
use async_graphql.Prelude.{
  ℕ, List, [], ◌∷◌, Bool, true, false, ◌&&◌, ◌||◌, ◌≡◌, refl, ◌∙◌, sym, ap, ◌↔◌, ◌⊎◌, inl, inr,
  arith, any, all, ◌++◌, Text, codes, ltb, ◌==◌, none, Bool-cases, if◌then◌else◌,
}
use async_graphql.Value.Print.{decimal}
use async_graphql.Prelude.Int.{ℤ, pos, negsuc}
use async_graphql.Registry.CacheControl.{
  CacheControl, default, is_no_cache, merge_age, merge, merge_all, age_value, with_scope, non_empty,
  value,
}

merge_age_comm : (a b : ℤ) → merge_age a b ≡ merge_age b a
unfolding merge_age
merge_age_comm a b = ground arith

merge_age_assoc : (a b c : ℤ) → merge_age (merge_age a b) c ≡ merge_age a (merge_age b c)
unfolding merge_age
merge_age_assoc (pos a) (pos b) (pos c) = ground arith
merge_age_assoc (pos a) (pos b) (negsuc c) = ground arith
merge_age_assoc (pos a) (negsuc b) (pos c) = ground arith
merge_age_assoc (pos a) (negsuc b) (negsuc c) = ground arith
merge_age_assoc (negsuc a) (pos b) (pos c) = ground arith
merge_age_assoc (negsuc a) (pos b) (negsuc c) = ground arith
merge_age_assoc (negsuc a) (negsuc b) (pos c) = ground arith
merge_age_assoc (negsuc a) (negsuc b) (negsuc c) = ground arith

merge_comm : (a b : CacheControl) → merge a b ≡ merge b a
unfolding merge
merge_comm a b = ground (arith, merge_age_comm a.max_age b.max_age)

merge_assoc : (a b c : CacheControl) → merge (merge a b) c ≡ merge a (merge b c)
unfolding merge
merge_assoc a b c = ground (arith, merge_age_assoc a.max_age b.max_age c.max_age)

-- Merging is commutative and associative, and the default is its neutral element.
pub merge-monoid :
    (a b c : CacheControl)
    → (merge a b ≡ merge b a)
      × (merge (merge a b) c ≡ merge a (merge b c))
      × (merge a default ≡ a)
      × (merge default a ≡ a)
merge-monoid a b c =
    (merge_comm a b, merge_assoc a b c, merge_default a, merge_comm default a ∙ merge_default a)
  where
    merge_default : (d : CacheControl) → merge d default ≡ d
    merge_default d = unfold merge merge_age in ground arith

CacheControl-set : IsSet CacheControl
CacheControl-set = hlevel

merge_swap : (c a b : CacheControl) → merge (merge c a) b ≡ merge (merge c b) a
merge_swap c a b = merge_assoc c a b ∙ ap (merge c) (merge_comm a b) ∙ sym (merge_assoc c b a)

merge_all-permᴰ :
    {parts others : List CacheControl}
    → Permᴰ parts others
    → (c : CacheControl) → merge_all c parts ≡ merge_all c others
unfolding merge_all
merge_all-permᴰ Permᴰ.nil c = refl
merge_all-permᴰ (Permᴰ.cons {a} {b} {l₁} {l₂} e p) c = rw e (merge_all-permᴰ p (merge c b))
merge_all-permᴰ (Permᴰ.swap {a} {b} {a'} {b'} {l} e e') c =
    rw (e, e') (ap (λ m. merge_all m l) (merge_swap c b' a'))
merge_all-permᴰ (Permᴰ.trans p q) c = merge_all-permᴰ p c ∙ merge_all-permᴰ q c

-- The order in which the parts of a query are merged does not matter.
pub merge_all-perm :
    (c : CacheControl) {parts others : List CacheControl}
    → Perm parts others
    → merge_all c parts ≡ merge_all c others
merge_all-perm c p = ∥∥₁_elim p (CacheControl-set _ _) (λ d. merge_all-permᴰ d c)

public_step :
    (c part : CacheControl) (rest : Bool)
    → ((merge c part).public && rest) ≡ (c.public && (if part.public then rest else false))
unfolding merge
public_step c part rest = ground arith

no_cache-merge_age : (a b : ℤ) → is_no_cache (merge_age a b) ≡ (is_no_cache a || is_no_cache b)
unfolding merge_age
no_cache-merge_age a b = ground arith

no_cache_step :
    (c part : CacheControl) (rest : Bool)
    → (is_no_cache (merge c part).max_age || rest)
      ≡ (is_no_cache c.max_age || (if is_no_cache part.max_age then true else rest))
unfolding merge
no_cache_step c part rest = rw (no_cache-merge_age c.max_age part.max_age) (ground arith)

-- The merged result is public exactly if all parts are, and it is `no-cache` exactly if some part
-- is.
pub merge_all-parts :
    (c : CacheControl) (parts : List CacheControl)
    → ((merge_all c parts).public ≡ (c.public && all (λ p. p.public) parts))
      × (is_no_cache (merge_all c parts).max_age
          ≡ (is_no_cache c.max_age || any (λ p. is_no_cache p.max_age) parts))
unfolding merge_all all any
merge_all-parts c [] = (ground arith, ground arith)
merge_all-parts c (part ∷ parts) =
    let (p, n) = merge_all-parts (merge c part) parts in
    (p ∙ public_step c part _, n ∙ no_cache_step c part _)

-- An age that says nothing in the header: zero, or below -1.
pub says_nothing : ℤ → Bool
says_nothing (pos n) = n == 0
says_nothing (negsuc n) = ltb 0 n

age_value-nothing :
    (a : ℤ)
    → ((says_nothing a ≡ true) × (age_value a ≡ []))
      ⊎ ((says_nothing a ≡ false) × (d : ℕ) × (rest : Text) × (age_value a ≡ d ∷ rest))
unfolding says_nothing age_value
age_value-nothing (pos n) = elim (Bool-cases (ltb 0 n)) [
  | inl e ↦ inr (ground arith, b'm', codes "ax-age=" ++ decimal n, rw e)
  | inr e ↦ inl (ground arith, rw e)
]
age_value-nothing (negsuc n) = elim (Bool-cases (n == 0)) [
  | inl e ↦ inr (ground arith, b'n', codes "o-cache", rw e)
  | inr e ↦ inl (ground arith, rw e)
]

-- No header is sent exactly for a public response whose age is zero or below -1.
pub value-eq-none_iff :
    (c : CacheControl) → (value c ≡ none) ↔ ((c.public ≡ true) × (says_nothing c.max_age ≡ true))
unfolding value with_scope non_empty
value-eq-none_iff c = elim (age_value-nothing c.max_age) [
  | inl (q, e) ↦ ground (arith, q, e)
  | inr (q, d, rest, e) ↦ ground (arith, q, e)
]
