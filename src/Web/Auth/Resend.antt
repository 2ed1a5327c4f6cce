-- ===== src/Web/Auth/Resend.antt =====
-- web/src/features/auth/resend-verification.tsx
pub mod Cooldown
use postal.Prelude.{
  ℕ, ◌-◌, String, Option, none, some, Bool, true, false, not, ◌||◌, ltb, str_eq, if◌then◌else◌,
}
use postal.Query.{Result, awaited}

abbrev pub cooldown_seconds : ℕ
cooldown_seconds = 60

-- `pending` is the mutation's `isPending`.
pub record Resend : Type 0 where
  pub email : String
  pub seconds_left : ℕ
  pub sent : Bool
  pub error : Option String
  pub pending : Bool

unfoldable pub mounted : String → Resend
mounted email = record {
  email = email;
  seconds_left = 0;
  sent = false;
  error = none;
  pending = false;
}

-- A second goes by: the effect has a timer while seconds are left.
unfoldable pub tick : Resend → Resend
tick r = if ltb 0 r.seconds_left then record r { seconds_left = r.seconds_left - 1 } else r

-- `onClick` up to its await.
unfoldable pub on_click : Resend → Resend
on_click r = record r { error = none; pending = true }

-- `onClick` behind its await; `finally` starts the cooldown.
unfoldable pub answered : String → Result (Unit {0}) → Resend → Resend
answered unknown a r =
    awaited unknown a
      (λ _. record r { sent = true; pending = false; seconds_left = cooldown_seconds })
      (λ m. record r { error = some m; pending = false; seconds_left = cooldown_seconds })

unfoldable pub can_click : Resend → Bool
can_click r = not (ltb 0 r.seconds_left || (r.pending || str_eq r.email ""))

pub data Label : Type 0 where
  resend_in : ℕ → Label
  sending resend : Label

unfoldable pub label : Resend → Label
label r =
    if ltb 0 r.seconds_left then resend_in r.seconds_left else if r.pending then sending else resend
