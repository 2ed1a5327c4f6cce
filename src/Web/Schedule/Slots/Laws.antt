-- ===== src/Web/Schedule/Slots/Laws.antt =====
-- Which slots can be asked for.
use postal.Prelude.{
  ℕ, zero, suc, String, List, [], ◌∷◌, true, false, ◌≡◌, ◌<◌, refl, arith, length, is_some, str_eq,
}
use postal.Schema.{Channel, Slot}
use postal.Query.{Result, ok, thrown, type_error}
use postal.Web.Schedule.Slots.{
  Manager, mounted, nth, day_names, day_name, add, added, can_add, remove_slot, removed,
  set_channel, set_day, set_time, set_timezone,
}

-- What the user does; a day is one of the options.
pub data Step : Manager → Manager → Type 0 where
  channels : {m : Manager} (id : String) → Step m (set_channel id m)
  days : {m : Manager} (i : ℕ) → i < length day_names → Step m (set_day i m)
  times : {m : Manager} (t : String) → Step m (set_time t m)
  zones : {m : Manager} (tz : String) → Step m (set_timezone tz m)
  adds : {m : Manager} → can_add m ≡ true → Step m (add m).0
  hears : {m : Manager} (unknown : String) (r : Result Slot) → Step m (added unknown r m)
  removes : {m : Manager} (s : Slot) → Step m (remove_slot s m).0
  hears_removed : {m : Manager} → Step m (removed m)

pub data Reach (m : Manager) : Manager → Type 0 where
  here : Reach m m
  next : {n o : Manager} → Reach m n → Step n o → Reach m o

nth-is_some : (ds : List String) (n : ℕ) → n < length ds → is_some (nth ds n) ≡ true
nth-is_some [] n h = ground arith
nth-is_some (d ∷ ds) zero h = refl
nth-is_some (d ∷ ds) (suc n) h = nth-is_some ds n (omega arith)

added-day : (unknown : String) (r : Result Slot) (m : Manager) → (added unknown r m).day ≡ m.day
unfolding added
added-day unknown (ok s) m = refl
added-day unknown (thrown e) m = refl
added-day unknown type_error m = refl

Step-day : {m n : Manager} → Step m n → m.day < 7 → n.day < 7
unfolding set_channel set_day set_time set_timezone add remove_slot removed
Step-day (channels id) h = h
Step-day (days i k) h = omega arith
Step-day (times t) h = h
Step-day (zones tz) h = h
Step-day (adds k) h = h
Step-day (hears {m = m} unknown r) h = rw (added-day unknown r m) h
Step-day (removes s) h = h
Step-day hears_removed h = h

Reach-day : {m n : Manager} → m.day < 7 → Reach m n → n.day < 7
Reach-day h here = h
Reach-day h (next r step) = Step-day step (Reach-day h r)

-- Whatever the user does before, the enabled button sends a slot with a channel, with a time, and with a
-- day of the week that has a name, and asks for that channel's slots.
pub Reach-add :
    (cs : List Channel) (timezone : String) (m : Manager)
    → Reach (mounted cs timezone) m
    → can_add m ≡ true
    → ((add m).1.day_of_week < 7)
      × (is_some (day_name (add m).1.day_of_week) ≡ true)
      × (str_eq (add m).1.channel_id "" ≡ false)
      × (str_eq (add m).1.time_of_day "" ≡ false)
unfolding mounted add can_add day_name
Reach-add cs timezone m r h =
    let low = Reach-day (omega arith) r in
    (low, nth-is_some day_names m.day low, ground arith, ground arith)
