-- ===== src/Web/Channels/Callback/Once.antt =====
-- The exchange runs once.
use postal.Prelude.{
  String, Text, ◌≡◌, refl, Option, none, some, List, [], ◌∷◌, true, false, arith, Bool-cases, inl,
  inr, if◌then◌else◌, ap, ◌∙◌, is_empty, ◌||◌,
}
use postal.Schema.{Channel}
use postal.Query.{Result, ok, thrown, type_error}
use postal.Web.Channels.Callback.{Page, mounted, missing, effect, answered}

-- The effect runs, or an exchange is answered.
pub data Happening : Type 0 where
  runs : Happening
  hears : String → Result Channel → Happening

abbrev pub happen : Happening → Page → Page
happen runs p = effect p
happen (hears unknown r) p = (answered unknown r p).0

unfoldable pub history : List Happening → Page → Page
history [] p = p
history (h ∷ hs) p = history hs (happen h p)

answered-rest :
    (unknown : String) (r : Result Channel) (p : Page)
    → ((answered unknown r p).0.fired ≡ p.fired) × ((answered unknown r p).0.sent ≡ p.sent)
unfolding answered
answered-rest unknown (ok c) p = (refl, refl)
answered-rest unknown (thrown e) p = (refl, refl)
answered-rest unknown type_error p = (refl, refl)

fired-effect : (p : Page) → p.fired ≡ true → effect p ≡ p
unfolding effect
fired-effect p h = elim (Bool-cases (missing p)) [ inl m ↦ rw m refl | inr m ↦ rw (m, h) refl ]

-- Once it has run the effect asks for nothing more.
fired-history : (hs : List Happening) (p : Page) → p.fired ≡ true → (history hs p).sent ≡ p.sent
unfolding history
fired-history [] p h = refl
fired-history (runs ∷ hs) p h =
    ap (λ q. (history hs q).sent) (fired-effect p h) ∙ fired-history hs p h
fired-history (hears unknown r ∷ hs) p h =
    let (fired, sent) = answered-rest unknown r p in
    fired-history hs (answered unknown r p).0 (fired ∙ h) ∙ sent

missing-effect : (p : Page) → missing p ≡ true → effect p ≡ p
unfolding effect
missing-effect p h = rw h refl

answered-missing :
    (unknown : String) (r : Result Channel) (p : Page)
    → missing (answered unknown r p).0 ≡ missing p
unfolding answered missing
answered-missing unknown (ok c) p = refl
answered-missing unknown (thrown e) p = refl
answered-missing unknown type_error p = refl

-- Without a state or a code nothing is asked for.
missing-history : (hs : List Happening) (p : Page) → missing p ≡ true → (history hs p).sent ≡ p.sent
unfolding history
missing-history [] p h = refl
missing-history (runs ∷ hs) p h =
    ap (λ q. (history hs q).sent) (missing-effect p h) ∙ missing-history hs p h
missing-history (hears unknown r ∷ hs) p h =
    missing-history hs (answered unknown r p).0 (answered-missing unknown r p ∙ h)
    ∙ (answered-rest unknown r p).1

-- The exchanges that a page is to ask for.
abbrev pub wanted : Option Text → Option Text → List (Text × Text)
wanted (some state) (some code) = if is_empty state || is_empty code then [] else (state, code) ∷ []
wanted _ _ = []

first_run :
    (state code : Text) (hs : List Happening)
    → missing (mounted (some state) (some code)) ≡ false
    → (history hs (effect (mounted (some state) (some code)))).sent ≡ (state, code) ∷ []
unfolding mounted effect
first_run state code hs h = rw h (
    fired-history hs
      (record {
        state = some state;
        code = some code;
        fired = true;
        result = none;
        sent = (state, code) ∷ [];
      })
      refl)

-- Once the effect has run, and however often it runs again and whatever is answered, the page has asked
-- for exactly one exchange, that of its state and code; where one of them is missing or empty, for
-- none.
pub history-wanted :
    (state code : Option Text) (hs : List Happening)
    → (history (runs ∷ hs) (mounted state code)).sent ≡ wanted state code
unfolding history mounted missing
history-wanted none code hs = missing-history (runs ∷ hs) (mounted none code) refl
history-wanted (some state) none hs =
    missing-history (runs ∷ hs) (mounted (some state) none) (ground arith)
history-wanted (some state) (some code) hs = elim (Bool-cases (is_empty state || is_empty code)) [
  | inl h ↦ rw h (missing-history (runs ∷ hs) (mounted (some state) (some code)) h)
  | inr h ↦ rw h (first_run state code hs h)
]
