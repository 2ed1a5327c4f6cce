-- ===== src/Prelude/Trim.antt =====
-- `String.prototype.trim` on UTF-16 code units.
use Prim.Native.Nat.{ℕ}
use mathlib.Core.Path.{◌≡◌, refl}
use mathlib.Core.Logic.{inl, inr}
use mathlib.Core.Bool.{Bool, true, false, ◌&&◌, ◌||◌}
use mathlib.Core.List.{[], ◌∷◌}
use native.Mathlib.Omega.{arith}
use postal.Prelude.Tests.{◌==◌, if◌then◌else◌, leb, Bool-cases}
use postal.Prelude.Lists.{all}
use postal.Prelude.Chars.{Text}

-- `\s`, and what `trim` removes
unfoldable pub is_space : ℕ → Bool
is_space c =
    (leb 9 c && leb c 13)
    || c == 32
    || c == 160
    || c == 0x1680
    || (leb 0x2000 c && leb c 0x200a)
    || c == 0x2028
    || c == 0x2029
    || c == 0x202f
    || c == 0x205f
    || c == 0x3000
    || c == 0xfeff

abbrev pub is_empty : Text → Bool
is_empty [] = true
is_empty (c ∷ t) = false

unfoldable pub trim_start : Text → Text
trim_start [] = []
trim_start (c ∷ t) = if is_space c then trim_start t else c ∷ t

unfoldable pub trim_end : Text → Text
trim_end [] = []
trim_end (c ∷ t) = let rest = trim_end t in if is_space c && is_empty rest then [] else c ∷ rest

unfoldable pub trim : Text → Text
unfolding trim_start trim_end
trim t = trim_end (trim_start t)

trim_end-is_empty : (t : Text) → is_empty (trim_end t) ≡ all is_space t
unfolding trim_end
trim_end-is_empty [] = refl
trim_end-is_empty (c ∷ t) = ground (arith, trim_end-is_empty t)

trim_start-all : (t : Text) → all is_space (trim_start t) ≡ all is_space t
unfolding trim_start
trim_start-all [] = refl
trim_start-all (c ∷ t) = ground (arith, trim_start-all t)

-- A text is blank where nothing is left of it.
pub trim-is_empty : (t : Text) → is_empty (trim t) ≡ all is_space t
unfolding trim
trim-is_empty t = ground (arith, trim_end-is_empty (trim_start t), trim_start-all t)

trim_end-twice : (t : Text) → trim_end (trim_end t) ≡ trim_end t
unfolding trim_end
trim_end-twice [] = refl
trim_end-twice (c ∷ t) = elim (Bool-cases (is_space c && is_empty (trim_end t))) [
  | inl h ↦ rw h refl
  | inr h ↦ rw h (rw (trim_end-twice t) (rw h refl))
]

-- A text that `trim_start` leaves alone.
abbrev Starts : Text → Type 0
Starts [] = Unit
Starts (c ∷ t) = is_space c ≡ false

trim_start-Starts : (t : Text) → Starts (trim_start t)
unfolding trim_start
trim_start-Starts [] = tt
trim_start-Starts (c ∷ t) = elim (Bool-cases (is_space c)) [
  | inl h ↦ rw h (trim_start-Starts t)
  | inr h ↦ rw h h
]

Starts-trim_start : (t : Text) → Starts t → trim_start t ≡ t
unfolding trim_start
Starts-trim_start [] s = refl
Starts-trim_start (c ∷ t) s = rw s refl

trim_end-Starts : (t : Text) → Starts t → Starts (trim_end t)
unfolding trim_end
trim_end-Starts [] s = tt
trim_end-Starts (c ∷ t) s = rw s s

-- Trimming twice is trimming once.
pub trim-twice : (t : Text) → trim (trim t) ≡ trim t
unfolding trim
trim-twice t =
    let starts = trim_end-Starts (trim_start t) (trim_start-Starts t) in
    rw (Starts-trim_start (trim_end (trim_start t)) starts) (trim_end-twice (trim_start t))
