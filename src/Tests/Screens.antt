-- ===== src/Tests/Screens.antt =====
-- The wallet, the calendar and the slots.
use postal.Prelude.{
  ℕ, ◌+◌, ◌-◌, ◌*◌, ◌%◌, ◌<◌, String, ◌≡◌, refl, none, some, List, [], ◌∷◌, map, true, false, codes,
  ◌≢◌, arith, str_eq, if◌then◌else◌, ◌==◌, All, is_some,
}
use mathlib.Core.List.{Mem, mem-cons_self, Perm}
use postal.Schema.{Job, scheduled, Channel, active}
use postal.Web.Data.Billing.{paystack, dev}
use postal.Web.Wallet as Wallet
use postal.Web.Wallet.Bounds.{IsFair, start_topup-IsFair, switch_provider-can_buy, start_topup-dev}
use postal.Web.Schedule.Calendar as Calendar
use postal.Web.Schedule.Calendar.Days.{on, day_of, joined, ShowsJobs, in_range, days-in_range}
use postal.Web.Data.Schedule.{use_calendar}
use postal.Web.Schedule.Calendar.Behind.{week_rows-behind}
use postal.Web.Schedule.Calendar.Selected as Selected
use postal.Web.Schedule.Slots as Slots
use postal.Web.Schedule.Slots.Laws as SlotsLaws

-- Three thousand naira, by Paystack.
abbrev naira_screen : Wallet.Screen
naira_screen = record { provider = paystack; amount = 300000; error = none; pending = false }

can_buy_naira : Wallet.can_buy naira_screen ≡ true
unfolding Wallet.can_buy Wallet.below_min Wallet.currency
can_buy_naira = refl

start_topup-IsFair_example :
    ((Wallet.start_topup paystack naira_screen).1 ≡ some (paystack, Wallet.credits naira_screen))
    × IsFair paystack 300000 (Wallet.credits naira_screen)
start_topup-IsFair_example = start_topup-IsFair naira_screen can_buy_naira

naira_credits : Wallet.credits naira_screen ≡ 200
unfolding Wallet.credits Wallet.currency
naira_credits = refl

switch_provider-can_buy_at :
    (Wallet.can_buy (Wallet.switch_provider paystack naira_screen) ≡ true)
    × ((Wallet.switch_provider paystack naira_screen).error ≡ none)
    × All
        (λ preset.
          Wallet.can_buy
            (Wallet.set_amount (100 * preset) (Wallet.switch_provider paystack naira_screen))
          ≡ true)
        (Wallet.currency paystack).presets
switch_provider-can_buy_at = switch_provider-can_buy paystack naira_screen refl

start_topup-dev_at :
    (Wallet.credits naira_screen ≡ 200)
    × ((Wallet.start_topup dev naira_screen).1 ≡ some (dev, 300000))
start_topup-dev_at = start_topup-dev 200 naira_screen refl refl (omega arith)

-- Days as numbers, in weeks of seven and months of 28 days.
abbrev fns : Calendar.DateFns ℕ
fns = record {
  start_of_month = λ d. d - d % 28;
  end_of_month = λ d. d - d % 28 + 27;
  start_of_week = λ d. d - d % 7;
  end_of_week = λ d. d - d % 7 + 6;
  add_months = λ dir d. elim dir [ Calendar.next ↦ d + 28 | Calendar.previous ↦ d - 28 ];
  add_weeks = λ dir d. elim dir [ Calendar.next ↦ d + 7 | Calendar.previous ↦ d - 7 ];
  add_day = λ d. d + 1;
  each_day = λ a b. Calendar.span a (b + 1 - a);
  is_same_day = λ a b. a == b;
  iso = λ d. if d == 14 then "sunday" else "";
  date = λ s. if str_eq s "sunday" then 14 else 9;
}

map-same : (ns : List ℕ) → map (λ n. n) ns ≡ ns
map-same [] = refl
map-same (n ∷ ns) = cc (map-same ns)

abbrev fns-Laws : Calendar.Laws fns
fns-Laws = record {
  day = λ d. d;
  is_same_day-day = λ a b. refl;
  each_day-day = λ a b h. map-same (Calendar.span a (b + 1 - a));
  start_of_week-day = λ d. omega arith;
  end_of_week-day = λ d. omega arith;
  start_of_month-day = λ d. omega arith;
  end_of_month-day = λ d. omega arith;
  add_day-day = λ d. refl;
}

abbrev job : String → Job
job at = record {
  id = "j";
  post_id = "p";
  channel_id = "x";
  run_at = at;
  status = scheduled;
  attempts = 0;
  last_error = none;
  created_at = "";
}

abbrev week_of_nine : Calendar.Screen ℕ
week_of_nine = record { view = Calendar.week; cursor = 9; selected_day = none }

abbrev planned : List Job
planned = job "" ∷ job "sunday" ∷ []

abbrev planned_on : ℕ → List Job
planned_on d = on (day_of fns fns-Laws) planned (fns-Laws.day d)

days-in_range_example :
    ((d : ℕ) → ShowsJobs (planned_on d) (Calendar.cell fns (some planned) d))
    × Perm
        (joined (map planned_on (Calendar.days fns week_of_nine)))
        (in_range fns fns-Laws week_of_nine planned)
    × All
        (λ r. r.1 ≡ planned_on r.0)
        (Calendar.week_rows fns (some planned) (Calendar.days fns week_of_nine))
    × Perm
        (joined
          (map (λ r. r.1) (Calendar.week_rows fns (some planned) (Calendar.days fns week_of_nine))))
        (in_range fns fns-Laws week_of_nine planned)
days-in_range_example = days-in_range fns fns-Laws week_of_nine planned

abbrev sundays : List Job
sundays = job "sunday" ∷ []

asks :
    (Calendar.calendar_query fns (some "w") week_of_nine).key
    ≡ (use_calendar (some "w") (some "") (some "sunday")).key
unfolding Calendar.calendar_query Calendar.range_start Calendar.range_end use_calendar
asks = refl

reads_end :
    let end = fns.add_day (Calendar.range_end fns week_of_nine) in fns.date (fns.iso end) ≡ end
unfolding Calendar.range_end
reads_end = refl

some_sundays : sundays ≢ []
some_sundays e = ground (arith, e)

week_rows-behind_example :
    (joined
        (map (λ r. r.1) (Calendar.week_rows fns (some sundays) (Calendar.days fns week_of_nine)))
      ≡ [])
    × (Calendar.nothing_this_week sundays ≡ false)
week_rows-behind_example =
    week_rows-behind fns fns-Laws week_of_nine (some "w") "" "sunday" sundays asks reads_end
      some_sundays (refl, tt)

abbrev first_month : Calendar.Screen ℕ
first_month = Calendar.mounted fns 0

zero-Mem : Mem 0 (Calendar.days fns first_month)
unfolding Calendar.days Calendar.mounted Calendar.range_start Calendar.range_end
zero-Mem = mem-cons_self

month_view : first_month.view ≡ Calendar.month
unfolding Calendar.mounted
month_view = refl

first-IsShown :
    Selected.IsShown fns first_month.view (Calendar.days fns first_month) first_month.selected_day
unfolding Calendar.mounted
first-IsShown = tt

abbrev clicked : Calendar.Screen ℕ
clicked = Calendar.click fns 0 first_month

Reach-IsShown_at :
    Selected.IsShown fns clicked.view (Calendar.days fns clicked) clicked.selected_day
Reach-IsShown_at =
    Selected.Reach-IsShown fns first-IsShown
      (Selected.further Selected.here (Selected.clicks 0 month_view zero-Mem))

abbrev channel : Channel
channel = record {
  id = "x";
  platform = "twitter";
  platform_account_id = "1";
  handle = codes "ada";
  display_name = codes "Ada";
  status = active;
  connected_by = none;
  created_at = "";
}

abbrev slots : Slots.Manager
slots = Slots.set_day 6 (Slots.mounted (channel ∷ []) "UTC")

slots-Reach : SlotsLaws.Reach (Slots.mounted (channel ∷ []) "UTC") slots
slots-Reach = SlotsLaws.next SlotsLaws.here (SlotsLaws.days 6 (omega arith))

slots-can_add : Slots.can_add slots ≡ true
unfolding Slots.can_add Slots.set_day Slots.mounted
slots-can_add = refl

Reach-add_at :
    ((Slots.add slots).1.day_of_week < 7)
    × (is_some (Slots.day_name (Slots.add slots).1.day_of_week) ≡ true)
    × (str_eq (Slots.add slots).1.channel_id "" ≡ false)
    × (str_eq (Slots.add slots).1.time_of_day "" ≡ false)
Reach-add_at = SlotsLaws.Reach-add (channel ∷ []) "UTC" slots slots-Reach slots-can_add
