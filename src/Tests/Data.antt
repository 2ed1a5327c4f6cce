-- ===== src/Tests/Data.antt =====
-- The hooks of web/src/data over a small query cache.
use postal.Prelude.{
  String, ◌≡◌, ◌≢◌, refl, Option, none, some, [], ◌∷◌, Bool, true, false, if◌then◌else◌, eq_iff,
  ◌↔◌, ◌⊎◌,
}
use postal.ApiError.{Unknown, is_ok}
use postal.Schema.{User, Token, Post}
use postal.Query.{Key, text, in_workspace, Cached, Reply, ok, thrown, type_error}
use postal.Query.Cache.{QueryCache, is_prefix, key_eq, run_effects}
use postal.Web.ApiError.{normalize_error}
use postal.Web.Data.Auth.{nobody, use_me, use_login}
use postal.Web.Data.Posts.{use_post, use_posts}
use postal.Web.Data.Schedule.{use_calendar}
use postal.Web.Data.Keys.{Asked, key_of-injective}
use postal.Web.Data.Errors.{auth_replies}
use postal.Web.Data.Mutations.{effects, updated_post, deleted_post, canceled_job}
use postal.Web.Data.Mutations.Cascade.{of_post, effects-calendar}
use postal.Web.Data.Mutations.Isolation.{effects-other}
use postal.Web.Data.Mutations.Refetch.{updated_post-fresh}

abbrev pub Entries : Type 0
Entries = (Key → Bool) × (Key → Option Cached)

abbrev pub cache : QueryCache
cache = record {
  Cache = Entries;
  fresh = λ k c. c.0 k;
  value = λ k c. c.1 k;
  invalidate_queries = λ k c. ((λ j. if is_prefix k j then false else c.0 j), c.1);
  set_query_data = λ k v c.
      ((λ j. if key_eq k j then true else c.0 j), λ j. if key_eq k j then some v else c.1 j);
  remove_queries = λ c. ((λ j. false), λ j. none);
  fresh-invalidate = λ k j c. refl;
  value-invalidate = λ k j c. refl;
  fresh-set = λ k j v c. refl;
  value-set = λ k j v c. refl;
  fresh-remove = λ j c. refl;
  value-remove = λ j c. refl;
}

-- Everything is fresh.
abbrev pub warm : Entries
warm = ((λ k. true), λ k. none)

abbrev pub calendar : Key
calendar = text "calendar" ∷ []

pub apart : ◌≢◌ {A = String} "w1" "w2"
apart e = let differ : false ≡ true = (eq_iff "w1" "w2").1 e in cc

effects-other_example :
    (cache.fresh
        (in_workspace "w2" calendar)
        (run_effects cache (effects "w1" (canceled_job "j")) warm)
      ≡ cache.fresh (in_workspace "w2" calendar) warm)
    × (cache.value
          (in_workspace "w2" calendar)
          (run_effects cache (effects "w1" (canceled_job "j")) warm)
        ≡ cache.value (in_workspace "w2" calendar) warm)
effects-other_example = effects-other cache "w1" "w2" (canceled_job "j") calendar warm apart

effects-calendar_example :
    let after = run_effects cache (effects "w1" (deleted_post "p")) warm in
    let jobs = (use_calendar (some "w1") none none).key in
    (cache.fresh (use_posts (some "w1")).key after ≡ false)
    × (cache.fresh jobs after ≡ cache.fresh jobs warm)
    × (cache.value jobs after ≡ cache.value jobs warm)
effects-calendar_example = effects-calendar cache "w1" warm none none (of_post "p" refl)

abbrev draft : Post
draft = record {
  id = "p";
  workspace_id = "w1";
  author_user_id = none;
  status = "draft";
  created_at = "";
  variants = none;
}

abbrev edited : Entries
edited = run_effects cache (effects "w1" (updated_post draft ("p", []))) warm

updated_post-fresh_at :
    (cache.fresh (use_post (some "w1") (some "p")).key edited ≡ true)
    × (cache.value (use_post (some "w1") (some "p")).key edited ≡ some (Cached.post draft))
updated_post-fresh_at = updated_post-fresh cache "w1" draft ("p", []) warm

key_of-injective_example :
    Asked.link_preview "w" "https://a.b" ≡ Asked.link_preview "w" "https://a.b"
key_of-injective_example =
    key_of-injective (Asked.link_preview "w" "https://a.b") (Asked.link_preview "w" "https://a.b")
      refl

abbrev nothing_known : Unknown
nothing_known = Unknown.null

abbrev signed_out : Reply User
signed_out = record { status = 401; data_field = none; error = nothing_known }

abbrev no_token : Reply Token
no_token = record { status = 200; data_field = some none; error = nothing_known }

auth_replies_at :
    ((use_me.select signed_out ≡ ok nobody) ↔ (signed_out.status ≡ 401))
    × ((use_me.select signed_out ≡ thrown (normalize_error 401 nothing_known))
        ↔ ((signed_out.status ≢ 401) × ((is_ok 401 ≡ false) ⊎ (signed_out.data_field ≡ none))))
    × ((use_login.select no_token ≡ type_error)
        ↔ ((is_ok 200 ≡ true) × (no_token.data_field ≡ some none)))
auth_replies_at = auth_replies signed_out no_token
