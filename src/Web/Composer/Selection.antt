-- ===== src/Web/Composer/Selection.antt =====
-- Selecting channels, and the tabs over them.
use postal.Prelude.{
  Option, map, lookup, IsUnique, Text, String, ◌≡◌, refl, none, some, List, [], ◌∷◌, true, false,
  not, arith, if◌then◌else◌, Bool-cases, str_eq, eq_iff, inl, inr, has, has-append, has-delete_from,
  IsOnce, append-IsOnce, delete_from-IsOnce,
}
use postal.Schema.{Variant, Asset, Post, VariantValidation}
use postal.Query.{Result, ok, thrown, type_error}
use postal.Web.Composer.Drafts.{pairs}
use postal.Web.Composer.{
  open_editor, from_post, variants_of, ComposerState, Editor, Tab, all_channels, channel, body_for,
  is_selected, toggled, leave_tab, toggle_channel, open_tab, typed, type_body, put_shortened,
  reset_by, reset_override, attach, detach, Server, save, verdict_shown, after_upsert, upsert,
  inputs,
}

has-toggled :
    (id j : String) (l : List String)
    → has j (toggled id l) ≡ (if str_eq id j then not (has j l) else has j l)
has-toggled id j l = ground (arith, has-append id j l, has-delete_from id j l, eq_iff id j)

-- Toggling a channel changes whether that one is selected and no other, keeps every channel's text,
-- and takes the last verdicts away.
pub toggle_channel_lem :
    (id j : String) (e : Editor)
    → (is_selected (toggle_channel id e).state j
        ≡ (if str_eq id j then not (is_selected e.state j) else is_selected e.state j))
      × (body_for (toggle_channel id e).state j ≡ body_for e.state j)
      × ((toggle_channel id e).verdicts ≡ none)
unfolding toggle_channel body_for
toggle_channel_lem id j e = (has-toggled id j e.state.selected, refl, refl)

abbrev pub IsOpen : Tab → List String → Type 0
IsOpen all_channels l = Unit
IsOpen (channel c) l = has c l ≡ true

-- No channel is selected twice, and the open tab is that of a selected channel, or of all.
pub record IsConsistent (e : Editor) : Type 0 where
  pub once : IsOnce e.state.selected
  pub shown : IsOpen e.tab e.state.selected

toggled-IsOnce : (id : String) (l : List String) → IsOnce l → IsOnce (toggled id l)
toggled-IsOnce id l o = elim (Bool-cases (has id l)) [
  | inl h ↦ rw h (delete_from-IsOnce id l o)
  | inr h ↦ rw h (append-IsOnce id l h o)
]

toggled-IsOpen :
    (id : String) (tab : Tab) (l : List String)
    → IsOpen tab l
    → IsOpen (leave_tab id tab) (toggled id l)
toggled-IsOpen id all_channels l h = tt
toggled-IsOpen id (channel c) l h = elim (Bool-cases (str_eq c id)) [
  | inl e ↦ rw e tt
  | inr e ↦ rw e (ground (arith, has-toggled id c l, eq_iff c id, eq_iff id c))
]

-- What a user does in the editor; the tabs that can be clicked are those of selected channels.
pub data Step : Editor → Editor → Type 0 where
  toggles : {e : Editor} (id : String) → Step e (toggle_channel id e)
  opens : {e : Editor} (tab : Tab) → IsOpen tab e.state.selected → Step e (open_tab tab e)
  types : {e : Editor} (body : Text) → Step e (type_body body e)
  shortens : {e : Editor} (tab : Tab) (text : Text) → Step e (put_shortened tab text e)
  resets : {e : Editor} → Step e (reset_override e)
  attaches : {e : Editor} (a : Asset) → Step e (attach a e)
  detaches : {e : Editor} (id : String) → Step e (detach id e)
  saves : {e : Editor} (server : Server) → Step e (save server e)

pub data Reach (e : Editor) : Editor → Type 0 where
  here : Reach e e
  next : {f g : Editor} → Reach e f → Step f g → Reach e g

typed-selected :
    (tab : Tab) (body : Text) (s : ComposerState) → (typed tab body s).selected ≡ s.selected
typed-selected all_channels body s = refl
typed-selected (channel c) body s = refl

reset_by-selected : (tab : Tab) (s : ComposerState) → (reset_by tab s).selected ≡ s.selected
reset_by-selected all_channels s = refl
reset_by-selected (channel c) s = refl

verdict_shown-tab :
    (unknown : String) (r : Result (List VariantValidation)) (e : Editor)
    → ((verdict_shown unknown r e).state ≡ e.state) × ((verdict_shown unknown r e).tab ≡ e.tab)
verdict_shown-tab unknown (ok vs) e = (refl, refl)
verdict_shown-tab unknown (thrown x) e = (refl, refl)
verdict_shown-tab unknown type_error e = (refl, refl)

after_upsert-tab :
    (server : Server) (r : Result Post) (e : Editor)
    → ((after_upsert server r e).state ≡ e.state) × ((after_upsert server r e).tab ≡ e.tab)
after_upsert-tab server (ok p) e =
    verdict_shown-tab server.unknown (server.validate p.id) (record e { post_id = some p.id })
after_upsert-tab server (thrown x) e = (refl, refl)
after_upsert-tab server type_error e = (refl, refl)

save-selected :
    (server : Server) (e : Editor)
    → ((save server e).state ≡ e.state) × ((save server e).tab ≡ e.tab)
unfolding save
save-selected server e =
    after_upsert-tab server (upsert server e.post_id (inputs e.state))
      (record e { error = none; verdicts = none })

Step-IsConsistent : {e f : Editor} → Step e f → IsConsistent e → IsConsistent f
unfolding toggle_channel open_tab type_body put_shortened reset_override attach detach
Step-IsConsistent (toggles {e = e} id) h = record {
  once = toggled-IsOnce id e.state.selected h.once;
  shown = toggled-IsOpen id e.tab e.state.selected h.shown;
}
Step-IsConsistent (opens tab k) h = record { once = h.once; shown = k }
Step-IsConsistent (types {e = e} body) h = record {
  once = rw (typed-selected e.tab body e.state) h.once;
  shown = rw (typed-selected e.tab body e.state) h.shown;
}
Step-IsConsistent (shortens {e = e} tab text) h = record {
  once = rw (typed-selected tab text e.state) h.once;
  shown = rw (typed-selected tab text e.state) h.shown;
}
Step-IsConsistent (resets {e = e}) h = record {
  once = rw (reset_by-selected e.tab e.state) h.once;
  shown = rw (reset_by-selected e.tab e.state) h.shown;
}
Step-IsConsistent (attaches a) h = record { once = h.once; shown = h.shown }
Step-IsConsistent (detaches id) h = record { once = h.once; shown = h.shown }
Step-IsConsistent (saves {e = e} server) h =
    let (state, tab) = save-selected server e in
    record { once = rw state h.once; shown = rw (state, tab) h.shown }

-- From a consistent editor, whatever the user does and the server answers, no channel is ever
-- selected twice, and the open tab is always that of a selected channel, or of all.
pub Reach-IsConsistent : {e f : Editor} → IsConsistent e → Reach e f → IsConsistent f
Reach-IsConsistent h here = h
Reach-IsConsistent h (next r step) = Step-IsConsistent step (Reach-IsConsistent h r)

has-pairs :
    (id : String) (vs : List Variant)
    → lookup id (pairs vs) ≡ none
    → has id (map (λ v. v.channel_id) vs) ≡ false
unfolding lookup
has-pairs id [] h = refl
has-pairs id (v ∷ vs) h = ground (arith, has-pairs id vs)

variants-IsOnce : (vs : List Variant) → IsUnique (pairs vs) → IsOnce (map (λ v. v.channel_id) vs)
variants-IsOnce [] u = tt
variants-IsOnce (v ∷ vs) (h, u) = (has-pairs v.channel_id vs h, variants-IsOnce vs u)

-- The editor that opens with a draft of one variant a channel, or with none, is consistent: no channel
-- is selected twice, and the tab is that of all channels.
pub open_editor-IsConsistent :
    (initial : Option Post)
    → IsUnique (pairs (variants_of initial))
    → IsConsistent (open_editor initial)
unfolding open_editor from_post
open_editor-IsConsistent initial u = record {
  once = variants-IsOnce (variants_of initial) u;
  shown = tt;
}
