-- ===== src/Mobile/Members/Access/Same.antt =====
-- The phone's editor of a member's channels behaves as the web app's.
use postal.Prelude.{String, ◌≡◌, refl, List, [], ◌∷◌, map, Bool, ◌∙◌, ap}
use postal.Schema.{ChannelAccess}
use postal.Query.{Result, ok, thrown, type_error}
use postal.Mobile.Data.Governance.{Loaded, nothing, whole, inner}
use postal.Mobile.Members.Access.{Editor, mounted, toggle, restrict, input, on_save, answered}
use postal.Web.Data.Governance as WebGovernance
use postal.Web.Members.Access as Web
use postal.Web.Members.Access.Laws as WebLaws

pub data Action : Type 0 where
  toggles : String → Action
  restricts : Bool → Action
  saves : Action
  hears : String → Result (Loaded ChannelAccess) → Action

abbrev pub act : Action → Editor → Editor
act (toggles id) e = toggle id e
act (restricts checked) e = restrict checked e
act saves e = (on_save e).0
act (hears unknown r) e = answered unknown r e

unfoldable pub run : List Action → Editor → Editor
run [] e = e
run (a ∷ acts) e = run acts (act a e)

abbrev pub on_web : Editor → Web.Editor
on_web e = record {
  restricted = e.restricted;
  selected = e.selected;
  error = e.error;
  saved = e.saved;
  pending = e.pending;
}

abbrev pub loaded_on_web : Loaded ChannelAccess → WebGovernance.Loaded ChannelAccess
loaded_on_web nothing = WebGovernance.nothing
loaded_on_web whole = WebGovernance.whole
loaded_on_web (inner d) = WebGovernance.inner d

abbrev pub result_on_web :
    Result (Loaded ChannelAccess) → Result (WebGovernance.Loaded ChannelAccess)
result_on_web (ok d) = ok (loaded_on_web d)
result_on_web (thrown e) = thrown e
result_on_web type_error = type_error

abbrev pub action_on_web : Action → WebLaws.Action
action_on_web (toggles id) = WebLaws.toggles id
action_on_web (restricts checked) = WebLaws.restricts checked
action_on_web saves = WebLaws.saves
action_on_web (hears unknown r) = WebLaws.hears unknown (result_on_web r)

answered-on_web :
    (unknown : String) (r : Result (Loaded ChannelAccess)) (e : Editor)
    → on_web (answered unknown r e) ≡ Web.answered unknown (result_on_web r) (on_web e)
unfolding answered Web.answered
answered-on_web unknown (ok d) e = refl
answered-on_web unknown (thrown x) e = refl
answered-on_web unknown type_error e = refl

act-on_web : (a : Action) (e : Editor) → on_web (act a e) ≡ WebLaws.act (action_on_web a) (on_web e)
unfolding toggle restrict on_save Web.toggle Web.restrict Web.on_save
act-on_web (toggles id) e = refl
act-on_web (restricts checked) e = refl
act-on_web saves e = refl
act-on_web (hears unknown r) e = answered-on_web unknown r e

run-on_web_from :
    (acts : List Action) (e : Editor)
    → on_web (run acts e) ≡ WebLaws.run (map action_on_web acts) (on_web e)
unfolding run WebLaws.run
run-on_web_from [] e = refl
run-on_web_from (a ∷ acts) e =
    run-on_web_from acts (act a e)
    ∙ ap (λ f. WebLaws.run (map action_on_web acts) f) (act-on_web a e)

-- The same actions and answers, from the same access, leave the phone's editor as they leave the web
-- app's, and a save then sends the same.
pub run-on_web :
    (initial : ChannelAccess) (acts : List Action)
    → (on_web (run acts (mounted initial))
        ≡ WebLaws.run (map action_on_web acts) (Web.mounted initial))
      × (input (run acts (mounted initial))
          ≡ Web.input (WebLaws.run (map action_on_web acts) (Web.mounted initial)))
unfolding mounted input Web.mounted Web.input
run-on_web initial acts =
    let same = run-on_web_from acts (mounted initial) in (same, ap (λ e. Web.input e) same)
