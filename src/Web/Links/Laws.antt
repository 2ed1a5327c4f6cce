-- ===== src/Web/Links/Laws.antt =====
-- What `firstURL` finds, and that it misses nothing.
use postal.Prelude.{
  is_space, Text, codes, ℕ, ◌≡◌, ◌≢◌, ◌⊎◌, inl, inr, refl, sym, ap, ◌∙◌, Option, none, some, [],
  ◌∷◌, ◌++◌, true, false, ◌||◌, ◌==◌, ==_iff, or_else, Bool-cases, All, strip_prefix,
  strip_prefix-append, arith,
}
use mathlib.Core.List.{append_assoc}
use postal.Web.Links.{url_chars, behind, http, https, match_here, first_url}

abbrev pub IsUrlChar : ℕ → Type 0
IsUrlChar c = (is_space c || c == b')') ≡ false

-- Nothing follows, or a character that no URL holds.
abbrev pub IsEnd : Text → Type 0
IsEnd [] = Unit
IsEnd (c ∷ t) = (is_space c || c == b')') ≡ true

-- `u` is a scheme and at least one URL character; it stands in `t` behind `before`, and what follows
-- it cannot continue it.
pub record IsUrlIn (t u : Text) : Type 0 where
  pub before : Text
  pub scheme : Text
  pub first : ℕ
  pub more : Text
  pub after : Text
  pub known : (scheme ≡ http) ⊎ (scheme ≡ https)
  pub made : u ≡ scheme ++ first ∷ more
  pub chars : All IsUrlChar (first ∷ more)
  pub placed : t ≡ before ++ (u ++ after)
  pub ended : IsEnd after

strip_prefix-some : (s t : Text) {r : Text} → strip_prefix s t ≡ some r → t ≡ s ++ r
unfolding strip_prefix
strip_prefix-some [] t e = cc
strip_prefix-some (a ∷ s) [] e = cc
strip_prefix-some (a ∷ s) (b ∷ t) {r = r} e = elim (Bool-cases (a == b)) [
  | inl p ↦ ground (arith, ==_iff a b, strip_prefix-some s t {r = r})
  | inr p ↦ ground arith
]

url_chars-split :
    (t : Text)
    → (rest : Text) × (t ≡ url_chars t ++ rest) × All IsUrlChar (url_chars t) × IsEnd rest
unfolding url_chars
url_chars-split [] = ([], refl, tt, tt)
url_chars-split (c ∷ t) = elim (Bool-cases (is_space c || c == b')')) [
  | inl p ↦ (c ∷ t, rw (p, url_chars), rw (p, url_chars) tt, p)
  | inr p ↦
      let (rest, split, chars, ended) = url_chars-split t in
      (rest, rw (p, url_chars) (ap (λ x. c ∷ x) split), rw (p, url_chars) (p, chars), ended)
]

behind-IsUrlIn :
    (scheme t : Text) {u : Text}
    → (scheme ≡ http) ⊎ (scheme ≡ https)
    → behind scheme (strip_prefix scheme t) ≡ some u
    → IsUrlIn t u
behind-IsUrlIn scheme t {u} known e = go (strip_prefix scheme t) refl e
  where
    made :
        (r : Text) (chars : Text)
        → url_chars r ≡ chars
        → t ≡ scheme ++ r
        → elim chars as (λ _. Option Text) [ [] ↦ none | c ∷ cs ↦ some (scheme ++ c ∷ cs) ] ≡ some u
        → IsUrlIn t u
    made r [] q p f = cc
    made r (c ∷ cs) q p f =
        let (rest, split, chars, ended) = url_chars-split r in
        let same : scheme ++ c ∷ cs ≡ u = cc in
        record {
          before = [];
          scheme = scheme;
          first = c;
          more = cs;
          after = rest;
          known = known;
          made = sym same;
          chars = rw q at chars;
          placed =
              p
              ∙ ap (λ x. scheme ++ x) (split ∙ ap (λ x. x ++ rest) q)
              ∙ sym (append_assoc scheme (c ∷ cs) rest)
              ∙ ap (λ x. x ++ rest) same;
          ended = ended;
        }

    go : (o : Option Text) → strip_prefix scheme t ≡ o → behind scheme o ≡ some u → IsUrlIn t u
    go none q f = cc
    go (some r) q f = made r (url_chars r) refl (strip_prefix-some scheme t q) f

shift : (c : ℕ) (t : Text) {u : Text} → IsUrlIn t u → IsUrlIn (c ∷ t) u
shift c t m = record {
  before = c ∷ m.before;
  scheme = m.scheme;
  first = m.first;
  more = m.more;
  after = m.after;
  known = m.known;
  made = m.made;
  chars = m.chars;
  placed = ap (λ x. c ∷ x) m.placed;
  ended = m.ended;
}

or_else-cases {ℓ} :
    {A : Type ℓ} (o p : Option A) {a : A} → or_else o p ≡ some a → (o ≡ some a) ⊎ (p ≡ some a)
or_else-cases none p e = inr e
or_else-cases (some b) p e = inl e

match_here-IsUrlIn : (t : Text) {u : Text} → match_here t ≡ some u → IsUrlIn t u
unfolding match_here
match_here-IsUrlIn t e = elim (or_else-cases (behind https (strip_prefix https t)) _ e) [
  | inl p ↦ behind-IsUrlIn https t (inr refl) p
  | inr p ↦ behind-IsUrlIn http t (inl refl) p
]

-- The URL that is found stands in the text, is a scheme and at least one character, and is as long
-- as it can be.
pub first_url-IsUrlIn : (t : Text) {u : Text} → first_url t ≡ some u → IsUrlIn t u
unfolding first_url
first_url-IsUrlIn [] e = cc
first_url-IsUrlIn (c ∷ t) e = elim (or_else-cases (match_here (c ∷ t)) (first_url t) e) [
  | inl p ↦ match_here-IsUrlIn (c ∷ t) p
  | inr p ↦ shift c t (first_url-IsUrlIn t p)
]

behind-ne-none :
    (scheme : Text) (c : ℕ) (t : Text)
    → IsUrlChar c
    → behind scheme (strip_prefix scheme (scheme ++ c ∷ t)) ≢ none
unfolding url_chars
behind-ne-none scheme c t h =
    rw (strip_prefix-append scheme (c ∷ t), behind, url_chars, h) (λ e. cc)

or_else-left {ℓ} : {A : Type ℓ} (o p : Option A) → o ≢ none → or_else o p ≢ none
or_else-left none p h = absurd (h refl)
or_else-left (some a) p h = λ e. cc

or_else-right {ℓ} : {A : Type ℓ} (o p : Option A) → p ≢ none → or_else o p ≢ none
or_else-right none p h = h
or_else-right (some a) p h = λ e. cc

match_here-ne-none :
    (scheme : Text) (c : ℕ) (t : Text)
    → (scheme ≡ http) ⊎ (scheme ≡ https)
    → IsUrlChar c
    → match_here (scheme ++ c ∷ t) ≢ none
unfolding match_here
match_here-ne-none scheme c t (inl e) h = rw e (
    or_else-right (behind https (strip_prefix https (http ++ c ∷ t)))
      (behind http (strip_prefix http (http ++ c ∷ t))) (behind-ne-none http c t h))
match_here-ne-none scheme c t (inr e) h = rw e (
    or_else-left (behind https (strip_prefix https (https ++ c ∷ t)))
      (behind http (strip_prefix http (https ++ c ∷ t))) (behind-ne-none https c t h))

-- Wherever a scheme and a URL character stand in a text, a URL is found.
pub first_url-ne-none :
    (before scheme after : Text) (c : ℕ)
    → (scheme ≡ http) ⊎ (scheme ≡ https)
    → IsUrlChar c
    → first_url (before ++ (scheme ++ c ∷ after)) ≢ none
unfolding first_url
first_url-ne-none [] scheme after c (inl e) h = rw e (
    or_else-left (match_here (http ++ c ∷ after)) (first_url (codes "ttp://" ++ c ∷ after))
      (match_here-ne-none http c after (inl refl) h))
first_url-ne-none [] scheme after c (inr e) h = rw e (
    or_else-left (match_here (https ++ c ∷ after)) (first_url (codes "ttps://" ++ c ∷ after))
      (match_here-ne-none https c after (inr refl) h))
first_url-ne-none (b ∷ before) scheme after c k h =
    or_else-right (match_here (b ∷ before ++ (scheme ++ c ∷ after)))
      (first_url (before ++ (scheme ++ c ∷ after))) (first_url-ne-none before scheme after c k h)
