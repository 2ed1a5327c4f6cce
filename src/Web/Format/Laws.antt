-- ===== src/Web/Format/Laws.antt =====
-- Handles shown with one "@" more or none, and byte sizes in the largest unit that fits.
use postal.Prelude.{
  Text, ℕ, ◌+◌, ◌*◌, ◌≤◌, ◌<◌, ◌≡◌, ◌≢◌, refl, ◌⊎◌, inl, inr, ◌==◌, ==_iff, Bool-cases, [], ◌∷◌,
  arith,
}
use postal.Web.Format.{at_handle, ByteText, ByteUnit, plain, tenths, format_bytes}

-- The handle shown begins with "@", showing it again changes nothing, and it is the handle itself or
-- the handle behind one "@".
pub at_handle_normal :
    (h : Text)
    → ((t : Text) × (at_handle h ≡ b'@' ∷ t))
      × (at_handle (at_handle h) ≡ at_handle h)
      × ((at_handle h ≡ h) ⊎ (at_handle h ≡ b'@' ∷ h))
unfolding at_handle
at_handle_normal [] = (([], refl), refl, inr refl)
at_handle_normal (c ∷ h) = elim (Bool-cases (c == b'@')) [
  | inl same ↦
      let e : c ≡ b'@' = (==_iff c b'@').0 same in
      ((h, ground arith), ground arith, inl (ground arith))
  | inr other ↦ ((c ∷ h, ground arith), ground arith, inr (ground arith))
]

abbrev factor : ByteUnit → ℕ
factor ByteUnit.b = 1
factor ByteUnit.kib = 1024
factor ByteUnit.mib = 1048576
factor ByteUnit.gib = 1073741824

-- What the text says of a size: the size itself below 1024, else tenths of a binary unit, rounded to
-- the nearest, with at least 1.0 of the unit, and at most 1024.0 where a larger unit exists.
abbrev pub Shows : ℕ → ByteText → Type 0
Shows n (plain m) = (m ≡ n) × (n < 1024)
Shows n (tenths t u) =
    (10 ≤ t)
    × (2 * factor u * t ≤ 20 * n + factor u)
    × (20 * n < 2 * factor u * t + factor u)
    × ((u ≡ ByteUnit.gib) ⊎ (t ≤ 10240))
    × (u ≢ ByteUnit.b)

-- The text says the size itself below 1024, and else a number of tenths of a binary unit, not of
-- bytes: the nearest number, at least 1.0, and at most 1024.0 where a larger unit exists.
pub format_bytes-Shows : (n : ℕ) → Shows n (format_bytes n)
unfolding format_bytes
format_bytes-Shows n = ground arith
