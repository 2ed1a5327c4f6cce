-- ===== src/Prelude/Sets.antt =====
-- A `Set` of strings as the list of its elements in the order of insertion.
use Prim.Native.String.{String}
use mathlib.Core.Path.{◌≡◌, refl}
use mathlib.Core.Logic.{inl, inr}
use mathlib.Core.Bool.{Bool, false, not, ◌||◌}
use mathlib.Core.List.{List, [], ◌∷◌, ◌++◌}
use native.Mathlib.Omega.{arith}
use text.Mathlib.Text.{◌==◌ as str_eq}
use text.Mathlib.TextEquality.{eq_iff}
use postal.Prelude.Tests.{if◌then◌else◌, Bool-cases}
use postal.Prelude.Lists.{any, filter}

abbrev pub has : String → List String → Bool
has id l = any (λ c. str_eq c id) l

abbrev pub add : String → List String → List String
add id l = if has id l then l else l ++ id ∷ []

abbrev pub delete_from : String → List String → List String
delete_from id l = filter (λ c. not (str_eq c id)) l

-- `new Set(ids)` behind the elements that it has already
unfoldable pub add_all : List String → List String → List String
add_all l [] = l
add_all l (id ∷ ids) = add_all (add id l) ids

unfoldable pub set_of : List String → List String
unfolding add_all
set_of ids = add_all [] ids

-- No element twice.
abbrev pub IsOnce : List String → Type 0
IsOnce [] = Unit
IsOnce (c ∷ l) = (has c l ≡ false) × IsOnce l

pub has-append : (id j : String) (l : List String) → has j (l ++ id ∷ []) ≡ (has j l || str_eq id j)
has-append id j [] = ground arith
has-append id j (c ∷ l) = ground (arith, has-append id j l)

pub has-delete_from :
    (id j : String) (l : List String)
    → has j (delete_from id l) ≡ (if str_eq id j then false else has j l)
has-delete_from id j [] = ground arith
has-delete_from id j (c ∷ l) =
    ground (arith, has-delete_from id j l, eq_iff c id, eq_iff c j, eq_iff id j)

pub append-IsOnce :
    (id : String) (l : List String) → has id l ≡ false → IsOnce l → IsOnce (l ++ id ∷ [])
append-IsOnce id [] h o = (refl, tt)
append-IsOnce id (c ∷ l) h (p, o) = (
  ground (arith, has-append id c l, eq_iff id c, eq_iff c id),
  append-IsOnce id l (ground arith) o,
)

pub delete_from-IsOnce : (id : String) (l : List String) → IsOnce l → IsOnce (delete_from id l)
delete_from-IsOnce id [] o = tt
delete_from-IsOnce id (c ∷ l) (p, o) =
    ground (arith, delete_from-IsOnce id l o, has-delete_from id c l, eq_iff c id)

pub has-add : (id j : String) (l : List String) → has j (add id l) ≡ (str_eq id j || has j l)
has-add id j l = ground (arith, has-append id j l, eq_iff id j)

pub add-IsOnce : (id : String) (l : List String) → IsOnce l → IsOnce (add id l)
add-IsOnce id l o = elim (Bool-cases (has id l)) [
  | inl h ↦ rw h o
  | inr h ↦ rw h (append-IsOnce id l h o)
]

add_all-IsOnce : (l ids : List String) → IsOnce l → IsOnce (add_all l ids)
unfolding add_all
add_all-IsOnce l [] o = o
add_all-IsOnce l (id ∷ ids) o = add_all-IsOnce (add id l) ids (add-IsOnce id l o)

pub set_of-IsOnce : (ids : List String) → IsOnce (set_of ids)
unfolding set_of
set_of-IsOnce ids = add_all-IsOnce [] ids tt

has-add_all : (j : String) (l ids : List String) → has j (add_all l ids) ≡ (has j l || has j ids)
unfolding add_all
has-add_all j l [] = ground arith
has-add_all j l (id ∷ ids) = ground (arith, has-add_all j (add id l) ids, has-add id j l)

pub has-set_of : (j : String) (ids : List String) → has j (set_of ids) ≡ has j ids
unfolding set_of
has-set_of j ids = has-add_all j [] ids
