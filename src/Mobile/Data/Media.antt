-- ===== src/Mobile/Data/Media.antt =====
-- mobile/src/data/media.ts
use postal.Prelude.{Option, some, List, [], ◌∷◌, ◌==◌, if◌then◌else◌, String, value_or}
use postal.Schema.{Asset}
use postal.Query.{
  Key, text, in_workspace, get, post, delete, Reply, Result, ok, thrown, is_given, or_empty,
  workspace_call, with_envelope, invalidate, Query, Mutation,
}
use postal.Mobile.ApiError.{normalize_error}

abbrev pub media_list : String → Key
media_list ws = in_workspace ws (text "media" ∷ [])

unfoldable pub use_media : Option String → Query (List Asset) (List Asset)
use_media ws = record {
  key = media_list (value_or ws "");
  enabled = is_given ws;
  call = workspace_call get "/api/v1/workspaces/{workspaceID}/media/" (value_or ws "") [] [] [];
  select = with_envelope normalize_error or_empty;
}

abbrev pub asset_of : Reply Asset → Option (Option Asset) → Result Asset
asset_of r (some (some asset)) = ok asset
asset_of r _ = thrown (normalize_error r.status r.error)

-- What `uploadMedia` makes of the last answer: only 201 with `data` is accepted.
unfoldable pub upload_media : Reply Asset → Result Asset
upload_media r =
    if r.status == 201 then asset_of r r.data_field else thrown (normalize_error r.status r.error)

unfoldable pub use_upload_media : String → Mutation (Unit {0}) Asset Asset
unfolding upload_media
use_upload_media ws = record {
  call = λ _. workspace_call post "/api/v1/workspaces/{workspaceID}/media/" ws [] [] [];
  select = upload_media;
  on_success = λ _ _. invalidate (media_list ws) ∷ [];
}

unfoldable pub use_delete_media : String → Mutation String (Unit {0}) (Unit {0})
use_delete_media ws = record {
  call = λ id.
      workspace_call delete "/api/v1/workspaces/{workspaceID}/media/{mediaID}" ws
        (("mediaID", id) ∷ []) [] [];
  select = with_envelope normalize_error (λ _. ok tt);
  on_success = λ _ _. invalidate (media_list ws) ∷ [];
}
