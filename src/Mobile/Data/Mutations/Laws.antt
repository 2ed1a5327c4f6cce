-- ===== src/Mobile/Data/Mutations/Laws.antt =====
-- What a mutation of the mobile client leaves alone.
use postal.Prelude.{String, ◌≡◌, ◌≢◌, refl, All}
use postal.Query.{Key, in_workspace}
use postal.Query.Cache.{QueryCache, IsWithin, run_effects, run_effects-other}
use postal.Mobile.Data.Mutations.{
  Done, created_post, updated_post, deleted_post, scheduled_post, canceled_job, connected,
  disconnected, uploaded, deleted_media, added_member, set_channels, effects,
}

effects-IsWithin : (ws : String) (d : Done) → All (IsWithin ws) (effects ws d)
unfolding effects
effects-IsWithin ws (created_post p i) = ((_, refl), tt)
effects-IsWithin ws (updated_post p i) = ((_, refl), ((_, refl), tt))
effects-IsWithin ws (deleted_post i) = ((_, refl), tt)
effects-IsWithin ws (scheduled_post jobs i) = ((_, refl), ((_, refl), tt))
effects-IsWithin ws (canceled_job i) = ((_, refl), tt)
effects-IsWithin ws (connected i) = ((_, refl), tt)
effects-IsWithin ws (disconnected i) = ((_, refl), tt)
effects-IsWithin ws (uploaded asset) = ((_, refl), tt)
effects-IsWithin ws (deleted_media i) = ((_, refl), tt)
effects-IsWithin ws (added_member m i) = ((_, refl), tt)
effects-IsWithin ws (set_channels user a i) = ((_, refl), tt)

-- Whatever a mutation of the mobile client in one workspace returned, every cached entry of another
-- workspace keeps its value and stays as fresh as it was.
pub effects-elsewhere :
    (q : QueryCache) (ws other : String) (d : Done) (j : Key) (c : q.Cache)
    → ws ≢ other
    → (q.fresh (in_workspace other j) (run_effects q (effects ws d) c)
        ≡ q.fresh (in_workspace other j) c)
      × (q.value (in_workspace other j) (run_effects q (effects ws d) c)
          ≡ q.value (in_workspace other j) c)
effects-elsewhere q ws other d j c h =
    run_effects-other q ws other h j (effects ws d) c (effects-IsWithin ws d)
