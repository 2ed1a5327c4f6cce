-- ===== src/Mobile/Calendar/Groups.antt =====
-- The groups are the days of the sorted jobs.
use postal.Prelude.{
  ◌≡◌, refl, ◌∙◌, sym, ap, String, some, List, [], ◌∷◌, ◌++◌, Bool, true, false, arith,
  if◌then◌else◌, str_eq, eq_iff, lookup, lookup-insert, value_or, filter, Bool-cases, inl, inr,
  lookup-nil,
}
use mathlib.Core.List.{Perm}
use mathlib.Core.List.Perm
use postal.Schema.{Job}
use postal.Mobile.Calendar.{Locale, put, sorted, push, grouped, groups}

module _ (l : Locale) where
  abbrev pub on_day : String → List Job → List Job
  on_day day js = filter (λ j. str_eq (l.day_key j.run_at) day) js

  append_assoc : (xs ys zs : List Job) → (xs ++ ys) ++ zs ≡ xs ++ (ys ++ zs)
  append_assoc [] ys zs = refl
  append_assoc (x ∷ xs) ys zs = cc (append_assoc xs ys zs)

  append_nil : (xs : List Job) → xs ++ [] ≡ xs
  append_nil [] = refl
  append_nil (x ∷ xs) = cc (append_nil xs)

  push-day :
      (j : Job) (gs : List (String × List Job)) (day : String)
      → value_or (lookup day (push l j gs)) [] ≡ (
          if str_eq (l.day_key j.run_at) day
          then value_or (lookup day gs) [] ++ j ∷ []
          else value_or (lookup day gs) [])
  push-day j gs day =
      let key = l.day_key j.run_at in
      rw (lookup-insert key day (value_or (lookup key gs) [] ++ j ∷ []) gs)
        (ground (arith, eq_iff key day))

  joined :
      (b : Bool) (xs ys : List Job) (j : Job)
      → (if b then xs ++ j ∷ [] else xs) ++ ys ≡ xs ++ (if b then j ∷ ys else ys)
  joined true xs ys j = append_assoc xs (j ∷ []) ys
  joined false xs ys j = refl

  grouped-day :
      (js : List Job) (gs : List (String × List Job)) (day : String)
      → value_or (lookup day (grouped l js gs)) [] ≡ value_or (lookup day gs) [] ++ on_day day js
  unfolding grouped
  grouped-day [] gs day = sym (append_nil (value_or (lookup day gs) []))
  grouped-day (j ∷ js) gs day =
      grouped-day js (push l j gs) day
      ∙ ap (λ x. x ++ on_day day js) (push-day j gs day)
      ∙ joined (str_eq (l.day_key j.run_at) day) (value_or (lookup day gs) []) (on_day day js) j

  put-Perm : (j : Job) (js : List Job) → Perm (put l j js) (j ∷ js)
  unfolding put
  put-Perm j [] = Perm.refl (j ∷ [])
  put-Perm j (k ∷ ks) = elim (Bool-cases (l.before j.run_at k.run_at)) [
    | inl h ↦ rw h (Perm.refl (j ∷ k ∷ ks))
    | inr h ↦ rw h (Perm.trans (Perm.cons k (put-Perm j ks)) (Perm.swap j k ks))
  ]

  sorted-Perm : (js : List Job) → Perm (sorted l js) js
  unfolding sorted
  sorted-Perm [] = Perm.refl []
  sorted-Perm (j ∷ js) = Perm.trans (put-Perm j (sorted l js)) (Perm.cons j (sorted-Perm js))

  -- No job comes behind one that it is to come before.
  abbrev pub IsSorted : List Job → Type 0
  IsSorted [] = Unit
  IsSorted (j ∷ []) = Unit
  IsSorted (j ∷ k ∷ js) = (l.before j.run_at k.run_at ≡ true) × IsSorted (k ∷ js)

  module _ (total : (a b : String) → l.before a b ≡ false → l.before b a ≡ true) where
    put-behind :
        (j k : Job) (ks : List Job)
        → l.before j.run_at k.run_at ≡ false
        → IsSorted (k ∷ ks)
        → IsSorted (k ∷ put l j ks)
    unfolding put
    put-behind j k [] h s = (total j.run_at k.run_at h, tt)
    put-behind j k (m ∷ ks) h (p, s) = elim (Bool-cases (l.before j.run_at m.run_at)) [
      | inl e ↦ rw e (total j.run_at k.run_at h, (e, s))
      | inr e ↦ rw e (p, put-behind j m ks e s)
    ]

    put-IsSorted : (j : Job) (js : List Job) → IsSorted js → IsSorted (put l j js)
    unfolding put
    put-IsSorted j [] s = tt
    put-IsSorted j (k ∷ ks) s = elim (Bool-cases (l.before j.run_at k.run_at)) [
      | inl h ↦ rw h (h, s)
      | inr h ↦ rw h (put-behind j k ks h s)
    ]

    sorted-IsSorted : (js : List Job) → IsSorted (sorted l js)
    unfolding sorted
    sorted-IsSorted [] = tt
    sorted-IsSorted (j ∷ js) = put-IsSorted j (sorted l js) (sorted-IsSorted js)

    -- The jobs are sorted without losing or repeating one, and the group of each day is the sorted jobs of
    -- that day in their order.
    pub groups-days :
        (js : List Job) (day : String)
        → IsSorted (sorted l js)
          × Perm (sorted l js) js
          × (value_or (lookup day (groups l (some js))) [] ≡ on_day day (sorted l js))
    unfolding groups
    groups-days js day = (
      sorted-IsSorted js,
      sorted-Perm js,
      grouped-day (sorted l js) [] day
          ∙ ap (λ x. value_or x [] ++ on_day day (sorted l js)) (lookup-nil day),
    )
