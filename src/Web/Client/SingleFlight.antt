-- ===== src/Web/Client/SingleFlight.antt =====
-- The single-flight refresh of web/src/api/client.ts under interleaving: any number of calls of
-- `apiFetch` may stand at `await refreshSession()` while refresh requests are answered in any order.
pub mod Laws
use postal.Prelude.{
  ℕ, suc, ◌≡◌, ◌+◌, Option, none, some, List, [], ◌∷◌, ◌++◌, Bool, true, false, ◌==◌, if◌then◌else◌,
  not, filter,
}
use mathlib.Core.List.{Memᴰ}

-- The module variable `refreshing`: `null`, the promise of a running flight, or one that settled
-- before it was stored.
pub data Shared : Type 0 where
  idle : Shared
  flying : ℕ → Shared
  settled : Bool → Shared

-- Flights are numbered as they start. `running` are those whose `fetch` is not answered, `waiting`
-- the callers with the flight they await, and `served` the callers with what they were told.
pub record Flights : Type 0 where
  pub refreshing : Shared
  pub next : ℕ
  pub running : List ℕ
  pub waiting : List (ℕ × ℕ)
  pub served : List (ℕ × Bool)

-- What the new flight does before its first `await`: it sends its request, or `csrfToken()` throws.
pub data Begin : Type 0 where
  sends throws : Begin

-- `refreshSession()` by one caller.
abbrev pub call_by : Shared → ℕ → Begin → Flights → Flights
call_by idle caller sends s = record s {
  refreshing = flying s.next;
  next = suc s.next;
  running = s.next ∷ s.running;
  waiting = (caller, s.next) ∷ s.waiting;
}
call_by idle caller throws s = record s {
  refreshing = settled false;
  served = (caller, false) ∷ s.served;
}
call_by (flying flight) caller begin s = record s { waiting = (caller, flight) ∷ s.waiting }
call_by (settled r) caller begin s = record s { served = (caller, r) ∷ s.served }

unfoldable pub call : ℕ → Begin → Flights → Flights
call caller begin s = call_by s.refreshing caller begin s

abbrev pub awaits : ℕ → ℕ × ℕ → Bool
awaits flight (caller, f) = f == flight

abbrev pub told : Bool → List (ℕ × ℕ) → List (ℕ × Bool)
told r [] = []
told r ((caller, f) ∷ l) = (caller, r) ∷ told r l

-- The answer to a flight's request: `finally` clears `refreshing` whatever it holds, and the promise
-- settles for all that await it.
unfoldable pub finish : ℕ → Bool → Flights → Flights
finish flight r s = record s {
  refreshing = idle;
  running = filter (λ f. not (f == flight)) s.running;
  waiting = filter (λ w. not (awaits flight w)) s.waiting;
  served = told r (filter (awaits flight) s.waiting) ++ s.served;
}

pub data Step : Flights → Flights → Type 0 where
  calling : {s : Flights} (caller : ℕ) (begin : Begin) → Step s (call caller begin s)
  answered :
      {s : Flights} (flight : ℕ) (r : Bool) → Memᴰ flight s.running → Step s (finish flight r s)

abbrev pub start : Flights
start = record { refreshing = idle; next = 0; running = []; waiting = []; served = [] }

pub data Reach : Flights → Type 0 where
  here : Reach start
  further : {s t : Flights} → Reach s → Step s t → Reach t
