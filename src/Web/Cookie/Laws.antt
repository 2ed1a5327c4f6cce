-- ===== src/Web/Cookie/Laws.antt =====
-- `readCookie` on the text of a cookie jar.
use postal.Prelude.{
  Text, ℕ, ◌≡◌, ◌≢◌, refl, Option, none, some, List, [], ◌∷◌, ◌++◌, arith, ==_iff, if◌then◌else◌,
  All, All-append, or_else, text_eq, strip_prefix,
}
use mathlib.Core.List.{append_assoc}
use postal.Web.Cookie.{capture, until_semicolon, find_later, find_cookie}

-- `a=1; b=2`, as browsers write `document.cookie`.
abbrev pair_text : Text × Text → Text
pair_text (name, value) = name ++ b'=' ∷ value

abbrev later_text : List (Text × Text) → Text
later_text [] = []
later_text (c ∷ jar) = b';' ∷ b' ' ∷ pair_text c ++ later_text jar

abbrev pub jar_text : List (Text × Text) → Text
jar_text [] = []
jar_text (c ∷ jar) = pair_text c ++ later_text jar

-- The first cookie with this name.
abbrev pub first_value : Text → List (Text × Text) → Option Text
first_value name [] = none
first_value name ((n, v) ∷ jar) = if text_eq n name then some v else first_value name jar

-- Cookie names hold no "=" and no ";", values no ";" (RFC 6265).
abbrev IsPlain : ℕ → Type 0
IsPlain c = (c ≢ b';') × (c ≢ b'=')

abbrev IsCookie : Text × Text → Type 0
IsCookie (name, value) = All IsPlain name × All (λ c. c ≢ b';') value

until_semicolon-later :
    (v : Text) (jar : List (Text × Text))
    → All (λ c. c ≢ b';') v
    → until_semicolon (v ++ later_text jar) ≡ v
unfolding until_semicolon
until_semicolon-later [] [] h = refl
until_semicolon-later [] (c ∷ jar) h = refl
until_semicolon-later (c ∷ v) jar h = ground (arith, ==_iff c b';', until_semicolon-later v jar h.1)

-- A name fits in front of a cookie exactly when it is the cookie's name.
strip_prefix-name :
    (name n rest : Text)
    → All IsPlain name
    → All IsPlain n
    → strip_prefix (name ++ b'=' ∷ []) (n ++ b'=' ∷ rest)
      ≡ (if text_eq n name then some rest else none)
unfolding strip_prefix text_eq
strip_prefix-name [] [] rest h k = refl
strip_prefix-name [] (c ∷ n) rest h k = ground arith
strip_prefix-name (a ∷ name) [] rest h k = ground arith
strip_prefix-name (a ∷ name) (c ∷ n) rest h k =
    ground (arith, strip_prefix-name name n rest h.1 k.1)

-- No match starts inside a name or a value.
find_later-skip :
    (name t : Text) (jar : List (Text × Text))
    → All (λ c. c ≢ b';') t
    → find_later name (t ++ later_text jar) ≡ find_later name (later_text jar)
unfolding find_later
find_later-skip name [] jar h = refl
find_later-skip name (c ∷ t) jar h = ground (arith, find_later-skip name t jar h.1)

plain-All : (n : Text) → All IsPlain n → All (λ c. c ≢ b';') n
plain-All [] h = tt
plain-All (c ∷ n) h = (h.0.0, plain-All n h.1)

pair-All : (n v : Text) → IsCookie (n, v) → All (λ c. c ≢ b';') (n ++ b'=' ∷ v)
pair-All n v (h, k) = All-append (λ c. c ≢ b';') n (b'=' ∷ v) (plain-All n h) ((omega arith), k)

strip_prefix-name_nil : (name : Text) → strip_prefix (name ++ b'=' ∷ []) [] ≡ none
unfolding strip_prefix
strip_prefix-name_nil [] = refl
strip_prefix-name_nil (c ∷ name) = refl

module _ (name : Text) (named : All IsPlain name) where
  capture-pair :
      (n v : Text) (jar : List (Text × Text)) (other : Option Text)
      → IsCookie (n, v)
      → or_else
          (capture (strip_prefix (name ++ b'=' ∷ []) (pair_text (n, v) ++ later_text jar)))
          other
        ≡ (if text_eq n name then some v else other)
  capture-pair n v jar other (h, k) = rw (append_assoc n (b'=' ∷ v) (later_text jar)) (
      ground (
        arith,
        strip_prefix-name name n (v ++ later_text jar) named h,
        until_semicolon-later v jar k,
      ))

  find_later-jar :
      (jar : List (Text × Text))
      → All IsCookie jar
      → find_later name (later_text jar) ≡ first_value name jar
  unfolding find_later
  find_later-jar [] h = refl
  find_later-jar ((n, v) ∷ jar) (h, k) = ground (
    arith,
    capture-pair n v jar (find_later name (b' ' ∷ pair_text (n, v) ++ later_text jar)) h,
    find_later-skip name (b' ' ∷ pair_text (n, v)) jar ((omega arith), pair-All n v h),
    find_later-jar jar k,
  )

  -- In a jar of well-formed cookies the match is the value of the first cookie with the name, and
  -- there is none where no cookie has it.
  pub find_cookie-jar_text :
      (jar : List (Text × Text))
      → All IsCookie jar
      → find_cookie name (jar_text jar) ≡ first_value name jar
  unfolding find_cookie
  find_cookie-jar_text [] h = rw (strip_prefix-name_nil name)
  find_cookie-jar_text ((n, v) ∷ jar) (h, k) = ground (
    arith,
    capture-pair n v jar (find_later name (pair_text (n, v) ++ later_text jar)) h,
    find_later-skip name (pair_text (n, v)) jar (pair-All n v h),
    find_later-jar jar k,
  )
