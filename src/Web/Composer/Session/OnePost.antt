-- ===== src/Web/Composer/Session/OnePost.antt =====
-- However the edits, the clicks and the answers interleave, an editor creates one post.
use postal.Prelude.{
  String, Option, none, some, List, [], ◌∷◌, ◌≡◌, ◌≢◌, ◌≤◌, refl, sym, ap, ◌∙◌, All, arith, length,
  Bool-cases, inl, inr, is_some, str_eq, eq_iff,
}
use postal.Schema.{Post, VariantInput, VariantValidation}
use postal.Query.{Result, ok, thrown, type_error}
use postal.Web.Composer.{
  Editor, toggle_channel, open_tab, type_body, put_shortened, reset_override, attach, detach,
  open_editor, can_save, inputs, Server, verdict_shown,
}
use postal.Web.Composer.Session.{
  Edit, toggles, opens, types, shortens, resets, attaches, detaches, edited, Request, creates,
  updates, validates, Session, mounted, target_of, request_of, click, created, upserted, answer_by,
  answer, failed, Action, edits, clicks, answers, act, run,
}

-- The server names a post that it creates, and an update answers with the post that it updates.
pub record IsNaming (server : Server) : Type 0 where
  pub create_named : (vs : List VariantInput) (p : Post) → server.create vs ≡ ok p → p.id ≢ ""
  pub update_same :
      (id : String) (vs : List VariantInput) (p : Post) → server.update id vs ≡ ok p → p.id ≡ id

abbrev pub IsNamed : Action → Type 0
IsNamed (edits x) = Unit
IsNamed clicks = Unit
IsNamed (answers server) = IsNaming server

-- An update and a validation concern the one post of the editor.
abbrev pub IsFor : List String → Request → Type 0
IsFor targets (creates vs) = Unit
IsFor targets (updates id vs) = targets ≡ id ∷ []
IsFor targets (validates id) = targets ≡ id ∷ []

abbrev IsNew : Option Request → Type 0
IsNew none = Unit
IsNew (some (creates vs)) = Unit
IsNew (some (updates id vs)) = ⊥
IsNew (some (validates id)) = ⊥

abbrev IsOf : String → Option Request → Type 0
IsOf id none = Unit
IsOf id (some (creates vs)) = ⊥
IsOf id (some (updates i vs)) = i ≡ id
IsOf id (some (validates i)) = i ≡ id

-- The post of the editor, the request in flight, and the posts that it has created or opened.
abbrev Targets : Option String → Option Request → List String → Type 0
Targets none pending targets = (targets ≡ []) × IsNew pending
Targets (some id) pending targets = (targets ≡ id ∷ []) × (id ≢ "") × IsOf id pending

record IsOnTarget (s : Session) : Type 0 where
  now : Targets s.editor.post_id s.pending s.targets
  past : All (IsFor s.targets) s.sent

edited-post_id : (x : Edit) (e : Editor) → (edited x e).post_id ≡ e.post_id
unfolding toggle_channel open_tab type_body put_shortened reset_override attach detach
edited-post_id (toggles id) e = refl
edited-post_id (opens tab) e = refl
edited-post_id (types body) e = refl
edited-post_id (shortens tab text) e = refl
edited-post_id resets e = refl
edited-post_id (attaches a) e = refl
edited-post_id (detaches id) e = refl

request_of-Targets :
    (post_id : Option String) (pending : Option Request) (targets : List String)
    (vs : List VariantInput)
    → Targets post_id pending targets
    → Targets post_id (some (request_of post_id vs)) targets × IsFor targets (request_of post_id vs)
request_of-Targets none pending targets vs (e, h) = ((e, tt), tt)
request_of-Targets (some id) pending targets vs (e, n, h) = elim (Bool-cases (str_eq id "")) [
  | inl p ↦ absurd (n ((eq_iff id "").0 p))
  | inr p ↦ rw p ((e, n, refl), e)
]

click-IsOnTarget : (s : Session) → IsOnTarget s → IsOnTarget (click s)
unfolding click
click-IsOnTarget s h = elim (Bool-cases (can_save (is_some s.pending) s.editor)) [
  | inl p ↦
      let (a, b) =
        request_of-Targets s.editor.post_id s.pending s.targets (inputs s.editor.state) h.now in
      rw p (record { now = a; past = (b, h.past) })
  | inr p ↦ rw p h
]

at_rest :
    (post_id : Option String) (pending : Option Request) (targets : List String)
    → Targets post_id pending targets
    → Targets post_id none targets
at_rest none pending targets (e, h) = (e, tt)
at_rest (some id) pending targets (e, n, h) = (e, n, tt)

retarget : (targets : List String) (l : List Request) → All (IsFor []) l → All (IsFor targets) l
retarget targets [] h = tt
retarget targets (creates vs ∷ l) (h, k) = (tt, retarget targets l k)
retarget targets (updates id vs ∷ l) (h, k) = ground (arith, h)
retarget targets (validates id ∷ l) (h, k) = ground (arith, h)

failed-IsOnTarget : (message : String) (s : Session) → IsOnTarget s → IsOnTarget (failed message s)
failed-IsOnTarget message s h = record {
  now = at_rest s.editor.post_id s.pending s.targets h.now;
  past = h.past;
}

created-IsOnTarget :
    (unknown : String) (r : Result Post) (s : Session)
    → IsOnTarget s
    → s.targets ≡ []
    → ((p : Post) → r ≡ ok p → p.id ≢ "")
    → IsOnTarget (upserted unknown (created r s.targets) r s)
created-IsOnTarget unknown (ok p) s h e named =
    let targets : p.id ∷ s.targets ≡ p.id ∷ [] = ap (λ l. p.id ∷ l) e in
    record {
      now = (targets, named p refl, refl);
      past = (targets, retarget (p.id ∷ s.targets) s.sent (rw e at h.past));
    }
created-IsOnTarget unknown (thrown (err, x)) s h e named = failed-IsOnTarget err.message s h
created-IsOnTarget unknown type_error s h e named = failed-IsOnTarget unknown s h

updated-IsOnTarget :
    (unknown id : String) (r : Result Post) (s : Session)
    → IsOnTarget s
    → s.targets ≡ id ∷ []
    → id ≢ ""
    → ((p : Post) → r ≡ ok p → p.id ≡ id)
    → IsOnTarget (upserted unknown s.targets r s)
updated-IsOnTarget unknown id (ok p) s h e n same =
    let q : p.id ≡ id = same p refl in
    let targets : s.targets ≡ p.id ∷ [] = e ∙ ap (λ i. i ∷ []) (sym q) in
    record { now = (targets, (λ k. n (sym q ∙ k)), refl); past = (targets, h.past) }
updated-IsOnTarget unknown id (thrown (err, x)) s h e n same = failed-IsOnTarget err.message s h
updated-IsOnTarget unknown id type_error s h e n same = failed-IsOnTarget unknown s h

verdict_shown-post_id :
    (unknown : String) (r : Result (List VariantValidation)) (e : Editor)
    → (verdict_shown unknown r e).post_id ≡ e.post_id
verdict_shown-post_id unknown (ok vs) e = refl
verdict_shown-post_id unknown (thrown x) e = refl
verdict_shown-post_id unknown type_error e = refl

answer_by-IsOnTarget :
    (server : Server) (post_id : Option String) (pending : Option Request) (s : Session)
    → IsNaming server
    → s.editor.post_id ≡ post_id
    → IsOnTarget s
    → Targets post_id pending s.targets
    → IsOnTarget (answer_by server pending s)
answer_by-IsOnTarget server post_id none s k e h t = h
answer_by-IsOnTarget server none (some (creates vs)) s k e h (t, _) =
    created-IsOnTarget server.unknown (server.create vs) s h t (k.create_named vs)
answer_by-IsOnTarget server none (some (updates i vs)) s k e h (t, q) = absurd q
answer_by-IsOnTarget server none (some (validates i)) s k e h (t, q) = absurd q
answer_by-IsOnTarget server (some id) (some (creates vs)) s k e h (t, n, q) = absurd q
answer_by-IsOnTarget server (some id) (some (updates i vs)) s k e h (t, n, q) =
    updated-IsOnTarget server.unknown id (server.update i vs) s h t n
      (λ p a. k.update_same i vs p a ∙ q)
answer_by-IsOnTarget server (some id) (some (validates i)) s k e h (t, n, q) =
    let same = verdict_shown-post_id server.unknown (server.validate i) s.editor in
    record { now = rw (same) (at_rest s.editor.post_id s.pending s.targets h.now); past = h.past }

act-IsOnTarget : (a : Action) (s : Session) → IsNamed a → IsOnTarget s → IsOnTarget (act a s)
unfolding answer
act-IsOnTarget (edits x) s k h = record {
  now = rw (edited-post_id x s.editor) h.now;
  past = h.past;
}
act-IsOnTarget clicks s k h = click-IsOnTarget s h
act-IsOnTarget (answers server) s k h =
    answer_by-IsOnTarget server s.editor.post_id s.pending s k refl h h.now

run-IsOnTarget :
    (l : List Action) (s : Session) → All IsNamed l → IsOnTarget s → IsOnTarget (run l s)
run-IsOnTarget [] s k h = h
run-IsOnTarget (a ∷ l) s (k, ks) h = run-IsOnTarget l (act a s) ks (act-IsOnTarget a s k h)

mounted-IsOnTarget :
    (initial : Option Post) → ¬ (target_of initial ≡ "" ∷ []) → IsOnTarget (mounted initial)
unfolding mounted open_editor
mounted-IsOnTarget none n = record { now = (refl, tt); past = tt }
mounted-IsOnTarget (some p) n = record {
  now = (refl, (λ e. n (ap (λ i. i ∷ []) e)), tt);
  past = tt;
}

Targets-at_most :
    (post_id : Option String) (pending : Option Request) (targets : List String)
    → Targets post_id pending targets
    → length targets ≤ 1
Targets-at_most none pending targets (e, h) = rw e (omega arith)
Targets-at_most (some id) pending targets (e, n, h) = rw e (omega arith)

-- However the edits, the clicks on the save button and the answers of servers interleave, an editor
-- that opens with no post or with a named one has one post at most, which it was opened with or has
-- created, and every update and every validation it has sent is of that post; provided that the
-- servers name what they create, and answer an update with the post that it updates.
pub run-IsFor :
    (initial : Option Post) (l : List Action)
    → ¬ (target_of initial ≡ "" ∷ [])
    → All IsNamed l
    → let s = run l (mounted initial) in (length s.targets ≤ 1) × All (IsFor s.targets) s.sent
run-IsFor initial l n k =
    let s = run l (mounted initial) in
    let h = run-IsOnTarget l (mounted initial) k (mounted-IsOnTarget initial n) in
    (Targets-at_most s.editor.post_id s.pending s.targets h.now, h.past)
