-- ===== src/Prelude/Chars.antt =====
-- Text that the program scans, as its UTF-16 code units.
use Prim.Native.Nat.{ℕ, ◌-◌}
use Prim.Native.Char.{code}
use Prim.Native.String.{String}
use mathlib.Core.Path.{◌≡◌, refl}
use mathlib.Core.Bool.{Bool, true, false, ◌&&◌, ◌||◌}
use mathlib.Core.Option.{Option, none, some}
use mathlib.Core.List.{List, [], ◌∷◌, ◌++◌}
use native.Mathlib.Omega.{arith}
use postal.Prelude.Tests.{◌==◌, ==_iff, if◌then◌else◌, leb}

abbrev pub Text : Type 0
Text = List ℕ

-- The code units of an ASCII literal.
abbrev pub codes : String → Text
codes String.[] = []
codes (String.◌∷◌ c s) = code c ∷ codes s

unfoldable pub text_eq : Text → Text → Bool
text_eq [] [] = true
text_eq (a ∷ s) (b ∷ t) = a == b && text_eq s t
text_eq _ _ = false

-- What is left of `t` behind the prefix `s`.
unfoldable pub strip_prefix : Text → Text → Option Text
strip_prefix [] t = some t
strip_prefix (a ∷ s) [] = none
strip_prefix (a ∷ s) (b ∷ t) = if a == b then strip_prefix s t else none

abbrev pub starts : Option Text → Bool
starts none = false
starts (some _) = true

-- `t.includes(s)`
unfoldable pub includes : Text → Text → Bool
unfolding strip_prefix
includes [] s = starts (strip_prefix s [])
includes (c ∷ t) s = starts (strip_prefix s (c ∷ t)) || includes t s

-- `toUpperCase` on ASCII letters
unfoldable pub to_upper : Text → Text
to_upper [] = []
to_upper (c ∷ t) = (if leb b'a' c && leb c b'z' then c - 32 else c) ∷ to_upper t

pub strip_prefix-append : (s t : Text) → strip_prefix s (s ++ t) ≡ some t
unfolding strip_prefix
strip_prefix-append [] t = refl
strip_prefix-append (a ∷ s) t = ground (arith, ==_iff a a, strip_prefix-append s t)

pub text_eq_refl : (s : Text) → text_eq s s ≡ true
unfolding text_eq
text_eq_refl [] = refl
text_eq_refl (a ∷ s) = ground (arith, text_eq_refl s)

pub text_eq-eq : (s t : Text) → text_eq s t ≡ true → s ≡ t
unfolding text_eq
text_eq-eq [] [] h = refl
text_eq-eq [] (b ∷ t) h = cc
text_eq-eq (a ∷ s) [] h = cc
text_eq-eq (a ∷ s) (b ∷ t) h = ground (arith, ==_iff a b, text_eq-eq s t)
