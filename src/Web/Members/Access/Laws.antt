-- ===== src/Web/Members/Access/Laws.antt =====
-- The editor's list of channels as a set.
use postal.Prelude.{
  String, ◌≡◌, refl, List, [], ◌∷◌, Bool, true, false, not, arith, str_eq, eq_iff, has, IsOnce,
  has-add, has-delete_from, has-set_of, delete_from-IsOnce, append-IsOnce, set_of-IsOnce,
  if◌then◌else◌, Bool-cases, inl, inr,
}
use postal.Schema.{ChannelAccess}
use postal.Query.{Result, ok, thrown, type_error}
use postal.Web.Data.Governance.{Loaded}
use postal.Web.Members.Access.{Editor, mounted, flipped, toggle, restrict, input, on_save, answered}

-- What the user does, and the server's answers.
pub data Action : Type 0 where
  toggles : String → Action
  restricts : Bool → Action
  saves : Action
  hears : String → Result (Loaded ChannelAccess) → Action

abbrev pub act : Action → Editor → Editor
act (toggles id) e = toggle id e
act (restricts checked) e = restrict checked e
act saves e = (on_save e).0
act (hears unknown r) e = answered unknown r e

unfoldable pub run : List Action → Editor → Editor
run [] e = e
run (a ∷ acts) e = run acts (act a e)

-- The promise: a set of channels, which only a toggle changes, and only in one element.
abbrev pub Channels : Type 0
Channels = String → Bool

abbrev pub allow : Action → Channels → Channels
allow (toggles id) s = λ j. if str_eq id j then not (s j) else s j
allow (restricts checked) s = s
allow saves s = s
allow (hears unknown r) s = s

unfoldable pub allow_all : List Action → Channels → Channels
allow_all [] s = s
allow_all (a ∷ acts) s = allow_all acts (allow a s)

flipped-has :
    (id j : String) (l : List String)
    → has j (flipped id l) ≡ (if str_eq id j then not (has j l) else has j l)
flipped-has id j l = ground (arith, has-add id j l, has-delete_from id j l, eq_iff id j)

flipped-IsOnce : (id : String) (l : List String) → IsOnce l → IsOnce (flipped id l)
flipped-IsOnce id l o = elim (Bool-cases (has id l)) [
  | inl h ↦ rw h (delete_from-IsOnce id l o)
  | inr h ↦ rw h (append-IsOnce id l h o)
]

answered-selected :
    (unknown : String) (r : Result (Loaded ChannelAccess)) (e : Editor)
    → (answered unknown r e).selected ≡ e.selected
unfolding answered
answered-selected unknown (ok a) e = refl
answered-selected unknown (thrown x) e = refl
answered-selected unknown type_error e = refl

-- The set that the editor's list stands for, without repetition.
pub record Refines (e : Editor) (s : Channels) : Type 0 where
  pub once : IsOnce e.selected
  pub same : (j : String) → has j e.selected ≡ s j

act-Refines : (a : Action) (e : Editor) (s : Channels) → Refines e s → Refines (act a e) (allow a s)
unfolding toggle restrict on_save
act-Refines (toggles id) e s r = record {
  once = flipped-IsOnce id e.selected r.once;
  same = λ j. ground (arith, flipped-has id j e.selected, r.same j);
}
act-Refines (restricts checked) e s r = record { once = r.once; same = r.same }
act-Refines saves e s r = record { once = r.once; same = r.same }
act-Refines (hears unknown x) e s r =
    rw (answered-selected unknown x e) (record { once = r.once; same = r.same })

run-Refines-from :
    (acts : List Action) (e : Editor) (s : Channels)
    → Refines e s
    → Refines (run acts e) (allow_all acts s)
unfolding run allow_all
run-Refines-from [] e s r = r
run-Refines-from (a ∷ acts) e s r =
    run-Refines-from acts (act a e) (allow a s) (act-Refines a e s r)

mounted-Refines :
    (initial : ChannelAccess) → Refines (mounted initial) (λ j. has j initial.allowed_channel_ids)
unfolding mounted
mounted-Refines initial = record {
  once = set_of-IsOnce initial.allowed_channel_ids;
  same = λ j. has-set_of j initial.allowed_channel_ids;
}

-- Whatever is toggled, restricted, saved and answered from the access that was loaded, the editor's
-- list holds, once each, exactly the channels of the abstract set: those that were allowed, each
-- changed by its own toggles alone.
pub run-Refines :
    (initial : ChannelAccess) (acts : List Action)
    → Refines (run acts (mounted initial)) (allow_all acts (λ j. has j initial.allowed_channel_ids))
run-Refines initial acts =
    run-Refines-from acts (mounted initial) (λ j. has j initial.allowed_channel_ids)
      (mounted-Refines initial)

-- A channel that is toggled while a save of a restricted member is in flight: the accepted save is
-- announced as saved, though the list that is then shown differs from the one that was sent, in
-- that channel and in no other.
pub toggle-saved :
    (unknown : String) (a : Loaded ChannelAccess) (id : String) (e : Editor)
    → e.restricted ≡ true
    → let (pending, sent) = on_save e in
      let shown = answered unknown (ok a) (toggle id pending) in
      (shown.saved ≡ true)
      × (has id shown.selected ≡ not (has id sent.1))
      × ((j : String) → str_eq id j ≡ false → has j shown.selected ≡ has j sent.1)
unfolding toggle on_save answered input
toggle-saved unknown a id e restricted = rw restricted (
  refl,
  ground (arith, flipped-has id id e.selected, eq_iff id id),
  λ j other. ground (arith, flipped-has id j e.selected),
)
