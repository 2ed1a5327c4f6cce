-- ===== src/Web/Client/SingleFlight/Laws.antt =====
-- One refresh at a time, shared by everybody who waits.
use postal.Prelude.{
  ℕ, ◌≡◌, ◌≤◌, refl, sym, ap, ◌∙◌, List, [], ◌∷◌, ◌++◌, Bool, false, ◌==◌, not, filter, All, length,
  arith,
}
use mathlib.Core.List.{Memᴰ}
use mathlib.Core.List.Memᴰ.{not-nil}
use postal.Web.Client.SingleFlight.{
  Shared, idle, flying, settled, Flights, Begin, sends, throws, call_by, call, awaits, told, finish,
  Step, calling, answered, Reach, here, further,
}

-- What runs and who waits, as `refreshing` says it.
abbrev pub Agrees : Shared → List ℕ → List (ℕ × ℕ) → Type 0
Agrees idle running waiting = (running ≡ []) × (waiting ≡ [])
Agrees (flying f) running waiting = (running ≡ f ∷ []) × All (λ w. w.1 ≡ f) waiting
Agrees (settled r) running waiting = (r ≡ false) × (running ≡ []) × (waiting ≡ [])

abbrev pub IsSingle : Flights → Type 0
IsSingle s = Agrees s.refreshing s.running s.waiting

call_by-IsSingle :
    (x : Shared) (caller : ℕ) (begin : Begin) (s : Flights)
    → s.refreshing ≡ x
    → Agrees x s.running s.waiting
    → IsSingle (call_by x caller begin s)
call_by-IsSingle idle caller sends s e (p, q) = (ap (λ l. s.next ∷ l) p, (refl, rw q tt))
call_by-IsSingle idle caller throws s e (p, q) = (refl, p, q)
call_by-IsSingle (flying f) caller begin s e (p, q) = rw e (p, (refl, q))
call_by-IsSingle (settled r) caller begin s e h = rw e h

call-IsSingle :
    (caller : ℕ) (begin : Begin) (s : Flights) → IsSingle s → IsSingle (call caller begin s)
unfolding call
call-IsSingle caller begin s h = call_by-IsSingle s.refreshing caller begin s refl h

mem-singleton : {a b : ℕ} {l : List ℕ} → l ≡ b ∷ [] → Memᴰ a l → a ≡ b
mem-singleton e (Memᴰ.head p) = p ∙ cc
mem-singleton e (Memᴰ.tail {xs = xs} m) = let q : xs ≡ [] = cc in absurd (not-nil (rw q at m))

filter-awaited :
    (f : ℕ) (l : List (ℕ × ℕ))
    → All (λ w. w.1 ≡ f) l
    → (filter (λ w. not (awaits f w)) l ≡ []) × (filter (awaits f) l ≡ l)
filter-awaited f [] h = (refl, refl)
filter-awaited f ((caller, g) ∷ l) (e, h) = ground (arith, filter-awaited f l h)

finished :
    (x : Shared) (flight : ℕ) (running : List ℕ) (waiting : List (ℕ × ℕ))
    → Memᴰ flight running
    → Agrees x running waiting
    → (filter (λ f. not (f == flight)) running ≡ [])
      × (filter (λ w. not (awaits flight w)) waiting ≡ [])
      × (filter (awaits flight) waiting ≡ waiting)
finished idle flight running waiting m (p, q) = absurd (not-nil (rw p at m))
finished (settled r) flight running waiting m (e, p, q) = absurd (not-nil (rw p at m))
finished (flying f) flight running waiting m (p, q) =
    let e : flight ≡ f = mem-singleton p m in rw (e, p) (ground (arith, filter-awaited f waiting q))

finish-IsSingle :
    (flight : ℕ) (r : Bool) (s : Flights)
    → Memᴰ flight s.running
    → IsSingle s
    → IsSingle (finish flight r s)
unfolding finish
finish-IsSingle flight r s m h =
    let (p, q, _) = finished s.refreshing flight s.running s.waiting m h in (p, q)

Step-IsSingle : {s t : Flights} → Step s t → IsSingle s → IsSingle t
Step-IsSingle (calling {s = s} caller begin) h = call-IsSingle caller begin s h
Step-IsSingle (answered {s = s} flight r m) h = finish-IsSingle flight r s m h

Reach-IsSingle : {s : Flights} → Reach s → IsSingle s
Reach-IsSingle here = (refl, refl)
Reach-IsSingle (further r st) = Step-IsSingle st (Reach-IsSingle r)

waiters :
    (x : Shared) (running : List ℕ) (waiting : List (ℕ × ℕ))
    → Agrees x running waiting
    → (length running ≤ 1) × All (λ w. running ≡ w.1 ∷ []) waiting
waiters idle running waiting (p, q) = rw (p, q) ((omega arith), tt)
waiters (settled r) running waiting (e, p, q) = rw (p, q) ((omega arith), tt)
waiters (flying f) running waiting (p, q) = rw p ((omega arith), go waiting q)
  where
    go :
        (l : List (ℕ × ℕ))
        → All (λ w. w.1 ≡ f) l
        → All (λ w. ◌≡◌ {A = List ℕ} (f ∷ []) (w.1 ∷ [])) l
    go [] h = tt
    go (w ∷ l) (e, h) = (ap (λ n. n ∷ []) (sym e), go l h)

-- In every interleaving at most one refresh request is unanswered, and each caller that waits awaits
-- that one.
pub single_flight :
    {s : Flights} → Reach s → (length s.running ≤ 1) × All (λ w. s.running ≡ w.1 ∷ []) s.waiting
single_flight {s} r = waiters s.refreshing s.running s.waiting (Reach-IsSingle r)

-- When its answer arrives, every waiting caller is told the outcome, nobody is left waiting, and the
-- next call starts a new flight.
pub answered_lem :
    {s : Flights} (flight : ℕ) (r : Bool)
    → Reach s
    → Memᴰ flight s.running
    → let t = finish flight r s in
      (t.served ≡ told r s.waiting ++ s.served)
      × (t.waiting ≡ [])
      × (t.running ≡ [])
      × ((caller : ℕ) → (call caller sends t).running ≡ s.next ∷ [])
unfolding finish call
answered_lem {s} flight r reach m =
    let (p, q, all) = finished s.refreshing flight s.running s.waiting m (Reach-IsSingle reach) in
    (rw all refl, q, p, λ caller. ap (λ l. s.next ∷ l) p)
