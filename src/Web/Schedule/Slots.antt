-- ===== src/Web/Schedule/Slots.antt =====
-- web/src/features/schedule/slots-manager.tsx
pub mod Laws
use postal.Prelude.{
  ℕ, String, Text, Option, none, some, List, [], ◌∷◌, Bool, true, false, not, ◌||◌, str_eq, length,
  head?, if◌then◌else◌, ltb, ◌<◌, ◌≡◌, refl, arith, ◌==◌,
}
use postal.Schema.{Channel, Slot, SlotRequest}
use postal.Query.{Query, Result, awaited, ok, thrown, type_error}
use postal.Web.Data.Schedule.{use_slots}

abbrev pub day_names : List String
day_names = "Sunday" ∷ "Monday" ∷ "Tuesday" ∷ "Wednesday" ∷ "Thursday" ∷ "Friday" ∷ "Saturday" ∷ []

-- `DAYS[day]`
abbrev pub nth : List String → ℕ → Option String
nth [] n = none
nth (d ∷ ds) Prim.Native.Nat.zero = some d
nth (d ∷ ds) (Prim.Native.Nat.suc n) = nth ds n

unfoldable pub day_name : ℕ → Option String
day_name n = nth day_names n

-- `adding` and `removing` are `isPending` of the two mutations.
pub record Manager : Type 0 where
  pub channel_id : String
  pub day : ℕ
  pub time : String
  pub timezone : String
  pub error : Option String
  pub adding : Bool
  pub removing : Bool

abbrev pub first_id : Option Channel → String
first_id none = ""
first_id (some c) = c.id

-- `timezone` is the browser's.
unfoldable pub mounted : List Channel → String → Manager
mounted channels timezone = record {
  channel_id = first_id (head? channels);
  day = 1;
  time = "09:00";
  timezone = timezone;
  error = none;
  adding = false;
  removing = false;
}

-- `channelId || undefined`
abbrev pub id_or_none : String → Option String
id_or_none id = if str_eq id "" then none else some id

unfoldable pub slots_query : String → Manager → Query (List Slot) (List Slot)
slots_query ws m = use_slots (some ws) (id_or_none m.channel_id)

-- `add` up to its await, with what is sent.
unfoldable pub add : Manager → Manager × SlotRequest
add m = (
  record m { error = none; adding = true },
  record {
    channel_id = m.channel_id;
    day_of_week = m.day;
    time_of_day = m.time;
    timezone = m.timezone;
  },
)

-- `add` behind its await.
unfoldable pub added : String → Result Slot → Manager → Manager
added unknown r m =
    awaited unknown r (λ _. record m { adding = false })
      (λ message. record m { error = some message; adding = false })

unfoldable pub can_add : Manager → Bool
can_add m = not (m.adding || (str_eq m.channel_id "" || str_eq m.time ""))

-- "Delete", with the slot and its channel that are sent; its failure is not shown.
unfoldable pub remove_slot : Slot → Manager → Manager × (String × String)
remove_slot s m = (record m { removing = true }, (s.id, s.channel_id))

unfoldable pub removed : Manager → Manager
removed m = record m { removing = false }

unfoldable pub set_channel : String → Manager → Manager
set_channel id m = record m { channel_id = id }

-- `setDay(Number(e.target.value))`: the options' values are the indices of the names.
unfoldable pub set_day : ℕ → Manager → Manager
set_day i m = record m { day = i }

unfoldable pub set_time : String → Manager → Manager
set_time t m = record m { time = t }

unfoldable pub set_timezone : String → Manager → Manager
set_timezone tz m = record m { timezone = tz }
