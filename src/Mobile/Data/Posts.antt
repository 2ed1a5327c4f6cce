-- ===== src/Mobile/Data/Posts.antt =====
-- mobile/src/data/posts.ts
use postal.Prelude.{Option, List, [], ◌∷◌, ◌&&◌, String, value_or}
use postal.Schema.{Post, VariantInput, VariantValidation}
use postal.Query.{
  workspace_call, Key, text, in_workspace, Method, get, post, put, delete, Field, str, txt,
  record_of, variants, undefined, ApiCall, Result, ok, is_given, or_empty, with_envelope, with_data,
  invalidate, set_data, Query, Mutation,
}
use postal.Mobile.ApiError.{normalize_error}

abbrev pub post_list : String → Key
post_list ws = in_workspace ws (text "posts" ∷ [])

abbrev pub post_detail : String → String → Key
post_detail ws id = in_workspace ws (text "posts" ∷ text id ∷ [])

unfoldable pub use_posts : Option String → Query (List Post) (List Post)
use_posts ws = record {
  key = post_list (value_or ws "");
  enabled = is_given ws;
  call = workspace_call get "/api/v1/workspaces/{workspaceID}/posts/" (value_or ws "") [] [] [];
  select = with_envelope normalize_error or_empty;
}

unfoldable pub use_post : Option String → Option String → Query Post Post
use_post ws id = record {
  key = post_detail (value_or ws "") (value_or id "");
  enabled = is_given ws && is_given id;
  call =
      workspace_call get "/api/v1/workspaces/{workspaceID}/posts/{postID}" (value_or ws "")
        (("postID", value_or id "") ∷ []) [] [];
  select = with_data normalize_error ok;
}

unfoldable pub use_create_post : String → Mutation (List VariantInput) Post Post
use_create_post ws = record {
  call = λ vs.
      workspace_call post "/api/v1/workspaces/{workspaceID}/posts/" ws [] []
        (("variants", variants vs) ∷ []);
  select = with_data normalize_error ok;
  on_success = λ _ _. invalidate (post_list ws) ∷ [];
}

unfoldable pub use_update_post : String → Mutation (String × List VariantInput) Post Post
use_update_post ws = record {
  call = λ i.
      workspace_call put "/api/v1/workspaces/{workspaceID}/posts/{postID}" ws (("postID", i.0) ∷ [])
        [] (("variants", variants i.1) ∷ []);
  select = with_data normalize_error ok;
  on_success = λ p _.
      invalidate (post_list ws) ∷ set_data (post_detail ws p.id) (postal.Query.Cached.post p) ∷ [];
}

unfoldable pub use_delete_post : String → Mutation String (Unit {0}) (Unit {0})
use_delete_post ws = record {
  call = λ id.
      workspace_call delete "/api/v1/workspaces/{workspaceID}/posts/{postID}" ws
        (("postID", id) ∷ []) [] [];
  select = with_envelope normalize_error (λ _. ok tt);
  on_success = λ _ _. invalidate (post_list ws) ∷ [];
}

-- `data.data.variants` of the reply may be missing.
unfoldable pub use_validate_post :
    String → Mutation String (Option (List VariantValidation)) (List VariantValidation)
use_validate_post ws = record {
  call = λ id.
      workspace_call post "/api/v1/workspaces/{workspaceID}/posts/{postID}/validate" ws
        (("postID", id) ∷ []) [] [];
  select = with_data normalize_error or_empty;
  on_success = λ _ _. [];
}
