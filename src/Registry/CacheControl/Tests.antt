-- ===== src/Registry/CacheControl/Tests.antt =====
-- Runs of the cache control: the source's own tests among them, and the theorems at concrete values.
use mathlib.Core.List.Perm
use async_graphql.Prelude.{
  [], ◌∷◌, codes, true, false, ◌&&◌, ◌||◌, none, some, ◌≡◌, refl, ◌↔◌, any, all,
}
use async_graphql.Prelude.Int.{pos, negsuc}
use async_graphql.Registry.CacheControl.{
  CacheControl, default, is_no_cache, merge, merge_all, value,
}
use async_graphql.Registry.CacheControl.Laws.{
  merge-monoid, merge_all-perm, merge_all-parts, value-eq-none_iff, says_nothing,
}

abbrev minute : CacheControl
minute = record { public = true; max_age = pos 60 }

abbrev private_half : CacheControl
private_half = record { public = false; max_age = pos 30 }

abbrev no_cache : CacheControl
no_cache = record { public = true; max_age = negsuc 0 }

merges :
    (merge minute private_half ≡ record { public = false; max_age = pos 30 })
    × (merge minute no_cache ≡ no_cache)
    × (value (merge minute private_half) ≡ some (codes "max-age=30, private"))
    × (value no_cache ≡ some (codes "no-cache"))
unfolding merge value
merges = (refl, refl, refl, refl)

merge-monoid_example :
    (merge minute private_half ≡ merge private_half minute)
    × (merge (merge minute private_half) no_cache ≡ merge minute (merge private_half no_cache))
    × (merge minute default ≡ minute)
    × (merge default minute ≡ minute)
merge-monoid_example = merge-monoid minute private_half no_cache

merge_all-perm_example :
    merge_all default (minute ∷ private_half ∷ []) ≡ merge_all default (private_half ∷ minute ∷ [])
merge_all-perm_example = merge_all-perm default (Perm.swap private_half minute [])

merge_all-parts_example :
    ((merge_all default (minute ∷ no_cache ∷ [])).public
      ≡ (true && all (λ p. p.public) (minute ∷ no_cache ∷ [])))
    × (is_no_cache (merge_all default (minute ∷ no_cache ∷ [])).max_age
        ≡ (false || any (λ p. is_no_cache p.max_age) (minute ∷ no_cache ∷ [])))
merge_all-parts_example = merge_all-parts default (minute ∷ no_cache ∷ [])

value-eq-none_iff_example : (value minute ≡ none) ↔ ((true ≡ true) × (says_nothing (pos 60) ≡ true))
value-eq-none_iff_example = value-eq-none_iff minute
