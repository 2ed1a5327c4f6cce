-- ===== src/Web/Format.antt =====
-- web/src/lib/format.ts
pub mod Laws
use postal.Prelude.{Text, ℕ, ◌+◌, ◌*◌, ◌/◌, ltb, ◌==◌, if◌then◌else◌, List, [], ◌∷◌}

-- `handle.startsWith("@") ? handle : "@" + handle`
unfoldable pub at_handle : Text → Text
at_handle [] = b'@' ∷ []
at_handle (c ∷ rest) = if c == b'@' then c ∷ rest else b'@' ∷ c ∷ rest

pub data ByteUnit : Type 0 where
  b kib mib gib : ByteUnit

-- The loop of `formatBytes`. `value` is a number of bytes divided by a power of 1024, which a double
-- holds exactly, so it is kept as the pair of the bytes and the divisor; `value < 1024` is
-- `bytes < 1024 * divisor`.
scale : ℕ → List ByteUnit → ℕ → ByteUnit → ℕ × ByteUnit
scale bytes [] divisor unit = (divisor, unit)
scale bytes (next ∷ units) divisor unit =
    let rest = scale bytes units (divisor * 1024) next in
    if ltb bytes (1024 * divisor) then (divisor, unit) else rest

-- What is printed: a plain number of bytes, or tenths of a unit.
pub data ByteText : Type 0 where
  plain : ℕ → ByteText
  tenths : ℕ → ByteUnit → ByteText

-- `(bytes / divisor).toFixed(1)` in tenths: the nearest integer n to 10 * bytes / divisor, and the
-- larger one of two.
abbrev pub to_fixed1 : ℕ → ℕ → ℕ
to_fixed1 bytes divisor = (20 * bytes + divisor) / (2 * divisor)

unfoldable pub format_bytes : ℕ → ByteText
unfolding scale
format_bytes bytes =
    if ltb bytes 1024
    then plain bytes
    else (let (divisor, unit) =
          scale bytes (ByteUnit.kib ∷ ByteUnit.mib ∷ ByteUnit.gib ∷ []) 1 ByteUnit.b in
        tenths (to_fixed1 bytes divisor) unit)
