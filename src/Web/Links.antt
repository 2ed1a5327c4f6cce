-- ===== src/Web/Links.antt =====
-- `firstURL` of web/src/data/posts.ts: the first match of `https?:\/\/[^\s)]+` in a post's text.
pub mod Laws
use postal.Prelude.{
  is_space, Text, ℕ, Option, none, some, [], ◌∷◌, ◌++◌, Bool, true, false, ◌||◌, ◌&&◌, leb, ◌==◌,
  if◌then◌else◌, or_else, codes, strip_prefix,
}

-- `[^\s)]*`
unfoldable pub url_chars : Text → Text
url_chars [] = []
url_chars (c ∷ t) = if is_space c || c == b')' then [] else c ∷ url_chars t

-- `[^\s)]+` behind a scheme
abbrev pub behind : Text → Option Text → Option Text
behind scheme none = none
behind scheme (some rest) = elim (url_chars rest) [ [] ↦ none | c ∷ cs ↦ some (scheme ++ c ∷ cs) ]

abbrev pub http : Text
http = codes "http://"

abbrev pub https : Text
https = codes "https://"

unfoldable pub match_here : Text → Option Text
unfolding strip_prefix
match_here t = or_else (behind https (strip_prefix https t)) (behind http (strip_prefix http t))

unfoldable pub first_url : Text → Option Text
unfolding match_here
first_url [] = none
first_url (c ∷ t) = or_else (match_here (c ∷ t)) (first_url t)
