-- ===== src/Web/Composer/Drafts.antt =====
-- A saved draft that is opened and saved again.
use postal.Prelude.{
  Text, String, ◌≡◌, refl, ap, ◌∙◌, Option, none, some, List, [], ◌∷◌, map, arith, head?, All,
  lookup, lookup-insert, IsUnique, eq_iff, eq_refl, text_eq-eq, value_or, lookup-nil,
}
use postal.Schema.{Post, Variant, VariantInput, MediaMeta}
use postal.Web.Composer.{
  override_from, collect, body_of, media_of, variants_of, from_post, some_media, inputs,
}

abbrev pub pairs : List Variant → List (String × Text)
pairs vs = map (λ v. (v.channel_id, v.body)) vs

-- No variant has an override yet.
abbrev IsFree : List (String × Text) → List Variant → Type 0
IsFree o vs = All (λ v. lookup v.channel_id o ≡ none) vs

-- A channel without a variant keeps what it had.
collect-other :
    (m : Text) (vs : List Variant) (o : List (String × Text)) (k : String)
    → lookup k (pairs vs) ≡ none
    → lookup k (collect m vs o) ≡ lookup k o
unfolding collect lookup
collect-other m [] o k h = refl
collect-other m (v ∷ vs) o k h = ground (
  arith,
  eq_iff v.channel_id k,
  collect-other m vs (override_from m v o) k,
  lookup-insert v.channel_id k v.body o,
)

IsFree-later :
    (m : Text) (v : Variant) (vs : List Variant) (o : List (String × Text))
    → lookup v.channel_id (pairs vs) ≡ none
    → IsFree o vs
    → IsFree (override_from m v o) vs
unfolding lookup
IsFree-later m v [] o h f = tt
IsFree-later m v (w ∷ vs) o h (e, f) = (
  ground (
    arith,
    eq_iff w.channel_id v.channel_id,
    eq_iff v.channel_id w.channel_id,
    lookup-insert v.channel_id w.channel_id v.body o,
  ),
  IsFree-later m v vs o (ground (arith)) f,
)

-- The override, or the master text, is the variant's own text.
own_body :
    (m : Text) (v : Variant) (o : List (String × Text))
    → lookup v.channel_id o ≡ none
    → value_or (lookup v.channel_id (override_from m v o)) m ≡ v.body
own_body m v o h = ground (
  arith,
  text_eq-eq v.body m,
  lookup-insert v.channel_id v.channel_id v.body o,
  eq_refl v.channel_id,
)

abbrev pub input_of : Option (List MediaMeta) → String → Text → VariantInput
input_of media id body = record { channel_id = id; body = some body; media = media }

resaved :
    (m : Text) (media : Option (List MediaMeta)) (vs : List Variant) (o : List (String × Text))
    → IsUnique (pairs vs)
    → IsFree o vs
    → map
        (λ id. input_of media id (value_or (lookup id (collect m vs o)) m))
        (map (λ v. v.channel_id) vs)
      ≡ map (λ v. input_of media v.channel_id v.body) vs
unfolding collect
resaved m media [] o u f = refl
resaved m media (v ∷ vs) o (h, u) (e, f) =
    let later = override_from m v o in
    let own : value_or (lookup v.channel_id (collect m vs later)) m ≡ v.body =
      ap (λ x. value_or x m) (collect-other m vs later v.channel_id h) ∙ own_body m v o e in
    cc (own, resaved m media vs later u (IsFree-later m v vs o h f))

IsFree-empty : (vs : List Variant) → IsFree [] vs
IsFree-empty [] = tt
IsFree-empty (v ∷ vs) = (lookup-nil v.channel_id, IsFree-empty vs)

-- A draft with one variant a channel that is opened and saved unchanged sends each channel its own
-- text, in the same order; the media sent to every channel are those of the first variant.
pub inputs-from_post :
    (p : Post)
    → IsUnique (pairs (variants_of (some p)))
    → inputs (from_post (some p))
      ≡ map
          (λ v. input_of (some_media (media_of (head? (variants_of (some p))))) v.channel_id v.body)
          (variants_of (some p))
unfolding inputs from_post
inputs-from_post p u =
    let vs = variants_of (some p) in
    resaved (body_of (head? vs)) (some_media (media_of (head? vs))) vs [] u (IsFree-empty vs)
