-- ===== src/Web/Auth/Resend/Cooldown.antt =====
-- The cooldown ends, and holds until then.
use postal.Prelude.{ℕ, zero, suc, ◌-◌, ◌≡◌, refl, ◌∙◌, ap, String, false, not, arith, ltb, str_eq}
use postal.Query.{Result, ok, thrown, type_error}
use postal.Web.Auth.Resend.{Resend, tick, answered, can_click}

-- `n` seconds
unfoldable pub ticks : ℕ → Resend → Resend
ticks zero r = r
ticks (suc n) r = ticks n (tick r)

tick-seconds : (r : Resend) → (tick r).seconds_left ≡ r.seconds_left - 1
unfolding tick
tick-seconds r = ground arith

tick-pending : (r : Resend) → (tick r).pending ≡ r.pending
unfolding tick
tick-pending r = ground arith

ticks-seconds : (n : ℕ) (r : Resend) → (ticks n r).seconds_left ≡ r.seconds_left - n
unfolding ticks
ticks-seconds zero r = omega arith
ticks-seconds (suc n) r = omega (arith, ticks-seconds n (tick r), tick-seconds r)

tick-email : (r : Resend) → (tick r).email ≡ r.email
unfolding tick
tick-email r = ground arith

ticks-email : (n : ℕ) (r : Resend) → (ticks n r).email ≡ r.email
unfolding ticks
ticks-email zero r = refl
ticks-email (suc n) r = ticks-email n (tick r) ∙ tick-email r

ticks-pending : (n : ℕ) (r : Resend) → (ticks n r).pending ≡ r.pending
unfolding ticks
ticks-pending zero r = refl
ticks-pending (suc n) r = ticks-pending n (tick r) ∙ tick-pending r

answered-state :
    (unknown : String) (a : Result (Unit {0})) (r : Resend)
    → ((answered unknown a r).seconds_left ≡ 60)
      × ((answered unknown a r).pending ≡ false)
      × ((answered unknown a r).email ≡ r.email)
unfolding answered
answered-state unknown (ok u) r = (refl, refl, refl)
answered-state unknown (thrown e) r = (refl, refl, refl)
answered-state unknown type_error r = (refl, refl, refl)

-- With an e-mail address, whatever the answer to a request, the button is disabled for the next 59 seconds,
-- and is enabled again exactly when 60 seconds have gone by, and from then on.
pub ticks-answered :
    (unknown : String) (a : Result (Unit {0})) (r : Resend) (n : ℕ)
    → str_eq r.email "" ≡ false
    → can_click (ticks n (answered unknown a r)) ≡ not (ltb n 60)
unfolding can_click
ticks-answered unknown a r n h =
    let s = answered unknown a r in
    let (left, idle, same) = answered-state unknown a r in
    let seconds : (ticks n s).seconds_left ≡ 60 - n = ticks-seconds n s ∙ ap (λ k. k - n) left in
    let pending : (ticks n s).pending ≡ false = ticks-pending n s ∙ idle in
    let email : (ticks n s).email ≡ r.email = ticks-email n s ∙ same in
    rw (pending, seconds, email, h) (ground arith)
