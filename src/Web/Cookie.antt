-- ===== src/Web/Cookie.antt =====
-- `readCookie` of web/src/api/client.ts: the value of a cookie in the text of `document.cookie`, as
-- the regular expression `(?:^|; )name=([^;]*)` finds it.
pub mod Laws
use postal.Prelude.{
  ◌≡◌, refl, ◌⊎◌, inl, inr, Text, Option, none, some, [], ◌∷◌, ◌++◌, ◌==◌, if◌then◌else◌, or_else,
  strip_prefix,
}

-- `[^;]*`
unfoldable pub until_semicolon : Text → Text
until_semicolon [] = []
until_semicolon (c ∷ t) = if c == b';' then [] else c ∷ until_semicolon t

abbrev pub capture : Option Text → Option Text
capture none = none
capture (some rest) = some (until_semicolon rest)

-- The match behind a separator, at the leftmost place from here on.
unfoldable pub find_later : Text → Text → Option Text
unfolding strip_prefix until_semicolon
find_later name [] = none
find_later name (c ∷ t) =
    or_else (capture (strip_prefix (b';' ∷ b' ' ∷ name ++ b'=' ∷ []) (c ∷ t))) (find_later name t)

-- The captured group of the leftmost match: at the start, or behind a separator.
unfoldable pub find_cookie : Text → Text → Option Text
unfolding find_later
find_cookie name cookies =
    or_else (capture (strip_prefix (name ++ b'=' ∷ []) cookies)) (find_later name cookies)

-- What a call returned: a value, or it threw.
pub data Read {ℓ} (A : Type ℓ) : Type ℓ where
  returned : A → Read A
  threw : Read A

abbrev decoded : Option Text → Read (Option Text)
decoded none = threw
decoded (some t) = returned (some t)

-- `decode` is `decodeURIComponent`, `none` where it throws a `URIError`; the cookie text is missing
-- where there is no `document`.
unfoldable pub read_cookie : (Text → Option Text) → Text → Option Text → Read (Option Text)
unfolding find_cookie
read_cookie decode name none = returned none
read_cookie decode name (some cookies) = elim (find_cookie name cookies) [
  | none ↦ returned none
  | some value ↦ decoded (decode value)
]

pub Read-cases {ℓ} : {A : Type ℓ} (r : Read A) → (r ≡ threw) ⊎ ((a : A) × (r ≡ returned a))
Read-cases (returned a) = inr (a, refl)
Read-cases threw = inl refl
