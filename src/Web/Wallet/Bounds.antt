-- ===== src/Web/Wallet/Bounds.antt =====
-- What an amount buys.
use postal.Prelude.{ℕ, ◌+◌, ◌*◌, ◌/◌, ◌≤◌, ◌<◌, ◌≡◌, refl, none, some, true, false, arith, All}
use postal.Web.Data.Billing.{TopupProvider, stripe, paystack, dev}
use postal.Web.Wallet.{
  dollars, currency, Screen, credits, is_below, below_min, switch_provider, set_amount, start_topup,
  can_buy, credits_to_usd,
}

-- The hundredths of a currency that one credit costs.
abbrev pub price : TopupProvider → ℕ
price stripe = 1
price paystack = 1500
price dev = 1

-- The number of credits nearest to an amount, and at least a dollar's worth.
pub record IsFair (p : TopupProvider) (amount k : ℕ) : Type 0 where
  pub enough : 100 ≤ k
  pub above : 2 * amount < (2 * k + 1) * price p
  pub below : 2 * k * price p ≤ 2 * amount + price p

to_credits-IsFair :
    (p : TopupProvider) (amount : ℕ)
    → is_below (currency p) amount ≡ false
    → IsFair p amount ((currency p).to_credits amount)
unfolding currency
to_credits-IsFair stripe amount h = record {
  enough = ground arith;
  above = ground arith;
  below = ground arith;
}
to_credits-IsFair paystack amount h = record {
  enough = ground arith;
  above = ground arith;
  below = ground arith;
}
to_credits-IsFair dev amount h = record {
  enough = ground arith;
  above = ground arith;
  below = ground arith;
}

-- The enabled button sends the chosen provider and the credits that the screen shows: the number
-- nearest to what the amount is worth, and never less than 100.
pub start_topup-IsFair :
    (s : Screen)
    → can_buy s ≡ true
    → ((start_topup s.provider s).1 ≡ some (s.provider, credits s))
      × IsFair s.provider s.amount (credits s)
unfolding can_buy start_topup credits below_min
start_topup-IsFair s h =
    let above : is_below (currency s.provider) s.amount ≡ false = ground arith in
    (rw above refl, to_credits-IsFair s.provider s.amount above)

-- After another provider is chosen, and after any preset of the currency is clicked, an idle screen can
-- buy, and a new choice shows no error.
pub switch_provider-can_buy :
    (p : TopupProvider) (s : Screen)
    → s.pending ≡ false
    → (can_buy (switch_provider p s) ≡ true)
      × ((switch_provider p s).error ≡ none)
      × All
          (λ preset. can_buy (set_amount (100 * preset) (switch_provider p s)) ≡ true)
          (currency p).presets
unfolding can_buy switch_provider below_min set_amount currency
switch_provider-can_buy stripe s h = rw h (refl, refl, (refl, (refl, (refl, (refl, tt)))))
switch_provider-can_buy paystack s h = rw h (refl, refl, (refl, (refl, (refl, (refl, tt)))))
switch_provider-can_buy dev s h = rw h (refl, refl, (refl, (refl, (refl, (refl, tt)))))

-- With Paystack chosen, the free top-up takes the amount in naira for dollars: it asks for 1500 times
-- the credits that the screen shows for the amount.
pub start_topup-dev :
    (k : ℕ) (s : Screen)
    → s.provider ≡ paystack
    → s.amount ≡ 1500 * k
    → 1 ≤ k
    → (credits s ≡ k) × ((start_topup dev s).1 ≡ some (dev, 1500 * k))
unfolding credits start_topup currency
start_topup-dev k s p a h =
    let above : is_below dollars (1500 * k) ≡ false = ground arith in
    let worth : (2 * (1500 * k * 100) + 100) / 200 ≡ 1500 * k = omega arith in
    rw (p, a) (omega arith, rw (above, worth) refl)

-- The balance in dollars and cents is worth the credits of which it is made.
pub credits_to_usd-worth :
    (c : ℕ)
    → let shown = credits_to_usd c in
      ((currency stripe).to_credits (100 * shown.0 + shown.1) ≡ c) × (shown.1 < 100)
unfolding credits_to_usd currency
credits_to_usd-worth c = (omega arith, omega arith)
