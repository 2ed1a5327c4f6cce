-- ===== src/Web/Hints/Limits.antt =====
-- The character counter of the master text, and what the save button does not look at.
use postal.Prelude.{
  Text, ℕ, ◌≤◌, String, ◌≡◌, ◌↔◌, refl, Option, none, some, List, [], ◌∷◌, map, Bool, true, false,
  not, arith, ltb, ltb→lt, Bool-cases, All, any, length, str_eq, ◌==◌, ◌||◌, eq_iff, inl, inr,
}
use postal.Schema.{Channel}
use postal.Web.Composer.{Editor, is_selected, is_blank, can_save}
use postal.Web.Hints.{
  channel_limit, least, master_limit, Counter, left, over, counter, missing_media,
  selected_channels, by_id, known,
}
use postal.Web.Platforms.{platform_info}

least-le : (n : ℕ) (ms : List ℕ) (k : ℕ) → (k ≤ least n ms) ↔ ((k ≤ n) × All (λ m. k ≤ m) ms)
unfolding least
least-le n [] k = ground arith
least-le n (m ∷ ms) k = ground (arith, least-le n ms k, least-le m ms k)

limits-le :
    (cs : List Channel) (k : ℕ)
    → All (λ m. k ≤ m) (map channel_limit cs) ↔ All (λ c. k ≤ channel_limit c) cs
limits-le [] k = ((λ h. h), λ h. h)
limits-le (c ∷ cs) k =
    let (there, back) = limits-le cs k in ((λ (p, h). (p, there h)), λ (p, h). (p, back h))

-- The counter does not warn.
abbrev pub IsCalm : Option Counter → Type 0
IsCalm none = Unit
IsCalm (some (left n)) = Unit
IsCalm (some (over n)) = ⊥

counter-IsCalm :
    (limit : ℕ) (body : Text) → IsCalm (counter (some limit) body) ↔ (length body ≤ limit)
unfolding counter
counter-IsCalm limit body = elim (Bool-cases (ltb limit (length body))) [
  | inl h ↦ rw h ((λ x. absurd x), λ p. absurd (ground (arith, ltb→lt limit (length body) h)))
  | inr h ↦ rw h ((λ x. ground arith), λ p. tt)
]

-- The counter of the master text does not warn exactly when the text is within the limit of every
-- selected channel.
pub counter-IsCalm_iff :
    (cs : List Channel) (body : Text)
    → IsCalm (counter (master_limit cs) body) ↔ All (λ c. length body ≤ channel_limit c) cs
unfolding master_limit counter
counter-IsCalm_iff [] body = ((λ h. h), λ h. tt)
counter-IsCalm_iff (c ∷ cs) body =
    let limits = map channel_limit cs in
    let (calm, quiet) = counter-IsCalm (least (channel_limit c) limits) body in
    let (low, high) = least-le (channel_limit c) limits (length body) in
    let (there, back) = limits-le cs (length body) in
    ((λ h. let (p, ps) = low (calm h) in (p, there ps)), λ (p, ps). quiet (high (p, back ps)))

or_second : {b c : Bool} → b ≡ false → (b || c) ≡ true → c ≡ true
or_second {c = true} p q = refl
or_second {c = false} p q = ground arith

any-known :
    (f : Channel → Bool) (c : Channel) (o : Option Channel) (cs : List Channel)
    → o ≡ some c
    → f c ≡ true
    → any f (known o cs) ≡ true
any-known f c o cs e p = rw (e, p) refl

any-known_rest :
    (f : Channel → Bool) (o : Option Channel) (cs : List Channel)
    → any f cs ≡ true
    → any f (known o cs) ≡ true
any-known_rest f none cs h = h
any-known_rest f (some d) cs h = ground arith

selected-any :
    (channels : List Channel) (f : Channel → Bool) (id : String) (c : Channel) (ids : List String)
    → by_id channels id ≡ some c
    → f c ≡ true
    → any (λ i. str_eq i id) ids ≡ true
    → any f (selected_channels channels ids) ≡ true
unfolding selected_channels
selected-any channels f id c [] found p h = cc
selected-any channels f id c (i ∷ ids) found p h = elim (Bool-cases (str_eq i id)) [
  | inl e ↦ any-known f c (by_id channels i) _ (rw ((eq_iff i id).0 e) found) p
  | inr e ↦
      any-known_rest f (by_id channels i) _
        (selected-any channels f id c ids found p (or_second e h))
]

enabled :
    (id : String) (l : List String)
    → any (λ c. str_eq c id) l ≡ true
    → not (length l == 0 || false) ≡ true
enabled id [] h = cc
enabled id (c ∷ l) h = ground arith

-- With a selected channel on a platform that requires media, no media and a text that is not blank,
-- `missingMedia` is not empty and the save button is enabled all the same.
pub can_save-missing_media :
    (channels : List Channel) (e : Editor) (id : String) (c : Channel)
    → by_id channels id ≡ some c
    → (platform_info c.platform).requires_media ≡ true
    → is_selected e.state id ≡ true
    → e.state.media ≡ []
    → is_blank e.state.master_body ≡ false
    → (missing_media channels e ≡ true) × (can_save false e ≡ true)
unfolding missing_media can_save
can_save-missing_media channels e id c found requires h bare text =
    let needed =
      selected-any channels (λ d. (platform_info d.platform).requires_media) id c e.state.selected
        found requires h in
    (rw (needed, bare) refl, rw text (enabled id e.state.selected h))
