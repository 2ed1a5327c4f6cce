-- ===== src/Prelude/Dict.antt =====
-- A plain object used as a map, `Record<string, V>`, as an association list in insertion order.
use Prim.Native.String.{String}
use Prim.Native.Nat.{◌<◌}
use mathlib.Core.Path.{◌≡◌, refl}
use mathlib.Core.Logic.{◌≢◌, ◌↔◌}
use mathlib.Core.Bool.{true}
use mathlib.Core.Option.{Option, none, some}
use mathlib.Core.List.{List, [], ◌∷◌}
use native.Mathlib.Omega.{arith}
use text.Mathlib.Text.{◌==◌ as str_eq}
use text.Mathlib.TextEquality.{eq_iff}
use postal.Prelude.Tests.{if◌then◌else◌, or_else, ltb}
use postal.Prelude.Lists.{length}

module _ {ℓ} {V : Type ℓ} where
  -- `entries[key]`, with `undefined` for a missing key
  unfoldable pub lookup : String → List (String × V) → Option V
  lookup key [] = none
  lookup key ((name, value) ∷ rest) = if str_eq name key then some value else lookup key rest

  -- `entries[key] = value`: an entry that exists keeps its place.
  unfoldable pub insert : String → V → List (String × V) → List (String × V)
  insert key value [] = (key, value) ∷ []
  insert key value ((name, old) ∷ rest) =
      if str_eq name key then (key, value) ∷ rest else (name, old) ∷ insert key value rest

  -- `delete m[k]`
  unfoldable pub remove : String → List (String × V) → List (String × V)
  remove k [] = []
  remove k ((j, w) ∷ m) = if str_eq j k then remove k m else (j, w) ∷ remove k m

  pub lookup-insert :
      (key asked : String) (value : V) (entries : List (String × V))
      → lookup asked (insert key value entries)
        ≡ (if str_eq key asked then some value else lookup asked entries)
  unfolding lookup insert
  lookup-insert key asked value [] = refl
  lookup-insert key asked value ((name, old) ∷ rest) = ground (
    arith,
    lookup-insert key asked value rest,
    eq_iff name asked,
    eq_iff name key,
    eq_iff key asked,
  )

  pub lookup-remove :
      (k j : String) (m : List (String × V))
      → lookup j (remove k m) ≡ (if str_eq k j then none else lookup j m)
  unfolding lookup remove
  lookup-remove k j [] = ground arith
  lookup-remove k j ((i, w) ∷ m) =
      ground (arith, eq_iff k j, eq_iff i k, eq_iff i j, lookup-remove k j m)

  -- The value of the last entry with this key.
  abbrev pub lookup_last : String → List (String × V) → Option V
  lookup_last k [] = none
  lookup_last k ((j, v) ∷ m) = or_else (lookup_last k m) (if str_eq j k then some v else none)

  -- `{ ...a, ...b }`, and the loop that writes each pair of `b` into `a`
  unfoldable pub merge : List (String × V) → List (String × V) → List (String × V)
  merge a [] = a
  merge a ((k, v) ∷ b) = merge (insert k v a) b

  pub lookup-merge :
      (k : String) (a b : List (String × V))
      → lookup k (merge a b) ≡ or_else (lookup_last k b) (lookup k a)
  unfolding merge
  lookup-merge k a [] = refl
  lookup-merge k a ((j, v) ∷ b) =
      ground (arith, lookup-merge k (insert j v a) b, lookup-insert j k v a)

  -- No key stands twice.
  abbrev pub IsUnique : List (String × V) → Type ℓ
  IsUnique [] = Unit
  IsUnique ((k, v) ∷ m) = (lookup k m ≡ none) × IsUnique m

  pub insert-IsUnique :
      (k : String) (v : V) (m : List (String × V)) → IsUnique m → IsUnique (insert k v m)
  unfolding insert lookup
  insert-IsUnique k v [] u = (refl, tt)
  insert-IsUnique k v ((j, w) ∷ m) u =
      ground (arith, eq_iff j k, eq_iff k j, lookup-insert k j v m, insert-IsUnique k v m)

  pub merge-IsUnique : (a b : List (String × V)) → IsUnique a → IsUnique (merge a b)
  unfolding merge
  merge-IsUnique a [] u = u
  merge-IsUnique a ((k, v) ∷ b) u = merge-IsUnique (insert k v a) b (insert-IsUnique k v a u)

  pub lookup_last-eq-lookup :
      (k : String) (m : List (String × V)) → IsUnique m → lookup_last k m ≡ lookup k m
  unfolding lookup
  lookup_last-eq-lookup k [] u = refl
  lookup_last-eq-lookup k ((j, w) ∷ m) u = ground (arith, eq_iff j k, lookup_last-eq-lookup k m)

  pub lookup-nil : (k : String) → lookup k [] ≡ none
  unfolding lookup
  lookup-nil k = refl

  insert_pos : (k : String) (v : V) (m : List (String × V)) → 0 < length (insert k v m)
  unfolding insert
  insert_pos k v [] = omega arith
  insert_pos k v ((j, w) ∷ m) = ground arith

  merge_pos : (a b : List (String × V)) → 0 < length a → 0 < length (merge a b)
  unfolding merge
  merge_pos a [] h = h
  merge_pos a ((k, v) ∷ b) h = merge_pos (insert k v a) b (insert_pos k v a)

  -- Something was written exactly when there was something to write.
  pub merge-nil_pos_iff : (b : List (String × V)) → (ltb 0 (length (merge [] b)) ≡ true) ↔ (b ≢ [])
  unfolding merge
  merge-nil_pos_iff [] = ((λ h. cc), (λ h. absurd (h refl)))
  merge-nil_pos_iff ((k, v) ∷ b) =
      ((λ _ h. cc), λ _. ground (arith, merge_pos (insert k v []) b (insert_pos k v [])))
