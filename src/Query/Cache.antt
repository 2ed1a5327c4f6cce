-- ===== src/Query/Cache.antt =====
-- The query cache as the hooks rely on it, and what a list of effects does to it.
use postal.Prelude.{
  String, ◌≡◌, ◌≢◌, ◌∙◌, refl, Option, none, some, List, [], ◌∷◌, Bool, true, false, ◌&&◌, arith,
  if◌then◌else◌, str_eq, eq_iff, All,
}
use postal.Query.{
  Part, text, window, Key, in_workspace, Cached, Effect, invalidate, set_data, remove_all,
}

abbrev pub opt_eq : Option String → Option String → Bool
opt_eq none none = true
opt_eq (some a) (some b) = str_eq a b
opt_eq _ _ = false

abbrev pub part_eq : Part → Part → Bool
part_eq (text a) (text b) = str_eq a b
part_eq (window a b) (window c d) = opt_eq a c && opt_eq b d
part_eq _ _ = false

abbrev pub is_prefix : Key → Key → Bool
is_prefix [] j = true
is_prefix (a ∷ k) [] = false
is_prefix (a ∷ k) (b ∷ j) = part_eq a b && is_prefix k j

abbrev pub key_eq : Key → Key → Bool
key_eq [] [] = true
key_eq (a ∷ k) (b ∷ j) = part_eq a b && key_eq k j
key_eq _ _ = false

-- TanStack Query's documented behaviour: invalidating a key makes every entry under it stale and
-- keeps its value, setting data makes that entry fresh, removing empties the cache. A key is fresh
-- where its entry is served without a refetch.
pub record QueryCache : Type 1 where
  pub Cache : Type 0
  pub fresh : Key → Cache → Bool
  pub value : Key → Cache → Option Cached
  pub invalidate_queries : Key → Cache → Cache
  pub set_query_data : Key → Cached → Cache → Cache
  pub remove_queries : Cache → Cache
  pub fresh-invalidate :
      (k j : Key) (c : Cache)
      → fresh j (invalidate_queries k c) ≡ (if is_prefix k j then false else fresh j c)
  pub value-invalidate : (k j : Key) (c : Cache) → value j (invalidate_queries k c) ≡ value j c
  pub fresh-set :
      (k j : Key) (v : Cached) (c : Cache)
      → fresh j (set_query_data k v c) ≡ (if key_eq k j then true else fresh j c)
  pub value-set :
      (k j : Key) (v : Cached) (c : Cache)
      → value j (set_query_data k v c) ≡ (if key_eq k j then some v else value j c)
  pub fresh-remove : (j : Key) (c : Cache) → fresh j (remove_queries c) ≡ false
  pub value-remove : (j : Key) (c : Cache) → value j (remove_queries c) ≡ none

-- The effect stays inside a workspace.
abbrev pub IsWithin : String → Effect → Type 0
IsWithin ws (invalidate k) = (rest : Key) × (k ≡ in_workspace ws rest)
IsWithin ws (set_data k v) = (rest : Key) × (k ≡ in_workspace ws rest)
IsWithin ws remove_all = ⊥

pub str_eq-ne : (a b : String) → a ≢ b → str_eq a b ≡ false
str_eq-ne a b h = ground (arith, eq_iff a b)

prefix_apart :
    (ws other : String) (rest j : Key)
    → ws ≢ other
    → is_prefix (in_workspace ws rest) (in_workspace other j) ≡ false
prefix_apart ws other rest j h = rw (str_eq-ne ws other h)

key_apart :
    (ws other : String) (rest j : Key)
    → ws ≢ other
    → key_eq (in_workspace ws rest) (in_workspace other j) ≡ false
key_apart ws other rest j h = rw (str_eq-ne ws other h)

module _ (q : QueryCache) where
  open q use {Cache, fresh, value, invalidate_queries, set_query_data, remove_queries}

  abbrev pub run_effect : Effect → Cache → Cache
  run_effect (invalidate k) c = invalidate_queries k c
  run_effect (set_data k v) c = set_query_data k v c
  run_effect remove_all c = remove_queries c

  abbrev pub run_effects : List Effect → Cache → Cache
  run_effects [] c = c
  run_effects (e ∷ es) c = run_effects es (run_effect e c)

  module _ (ws other : String) (apart : ws ≢ other) (j : Key) where
    run_effect-other :
        (e : Effect) (c : Cache)
        → IsWithin ws e
        → (fresh (in_workspace other j) (run_effect e c) ≡ fresh (in_workspace other j) c)
          × (value (in_workspace other j) (run_effect e c) ≡ value (in_workspace other j) c)
    run_effect-other (invalidate k) c (rest, e) = rw e (
      q.fresh-invalidate _ _ c ∙ rw (prefix_apart ws other rest j apart) refl,
      q.value-invalidate _ _ c,
    )
    run_effect-other (set_data k v) c (rest, e) = rw e (
      q.fresh-set _ _ v c ∙ rw (key_apart ws other rest j apart) refl,
      q.value-set _ _ v c ∙ rw (key_apart ws other rest j apart) refl,
    )
    run_effect-other remove_all c h = elim h [ ]

    pub run_effects-other :
        (es : List Effect) (c : Cache)
        → All (IsWithin ws) es
        → (fresh (in_workspace other j) (run_effects es c) ≡ fresh (in_workspace other j) c)
          × (value (in_workspace other j) (run_effects es c) ≡ value (in_workspace other j) c)
    run_effects-other [] c h = (refl, refl)
    run_effects-other (e ∷ es) c (h, k) =
        let (f, v) = run_effect-other e c h in
        let (f', v') = run_effects-other es (run_effect e c) k in (f' ∙ f, v' ∙ v)
