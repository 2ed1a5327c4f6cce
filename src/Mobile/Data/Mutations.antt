-- ===== src/Mobile/Data/Mutations.antt =====
-- The mutations of mobile/src/data that name a workspace, with what each was given and returned, and
-- what it tells the query cache.
pub mod Laws
use postal.Prelude.{Text, String, List, Bool}
use postal.Schema.{Post, VariantInput, Job, Asset, Member, ChannelAccess}
use postal.Query.{Effect, Mutation}
use postal.Mobile.Data.Posts.{use_create_post, use_update_post, use_delete_post}
use postal.Mobile.Data.Schedule.{ScheduleInput, use_schedule_post, use_cancel_job}
use postal.Mobile.Data.Channels.{use_connect_manual, use_disconnect_channel}
use postal.Mobile.Data.Media.{use_upload_media, use_delete_media}
use postal.Mobile.Data.Members.{AssignableRole, use_add_member}
use postal.Mobile.Data.Governance.{Loaded, use_set_member_channels}

pub data Done : Type 0 where
  created_post : Post → List VariantInput → Done
  updated_post : Post → String × List VariantInput → Done
  deleted_post : String → Done
  scheduled_post : List Job → ScheduleInput → Done
  canceled_job : String → Done
  connected : String × List (String × Text) → Done
  disconnected : String → Done
  uploaded : Asset → Done
  deleted_media : String → Done
  added_member : Member → Text × AssignableRole → Done
  set_channels : String → Loaded ChannelAccess → Bool × List String → Done

unfoldable pub effects : String → Done → List Effect
unfolding use_create_post use_update_post use_delete_post use_schedule_post use_cancel_job
    use_connect_manual use_disconnect_channel use_upload_media use_delete_media use_add_member
    use_set_member_channels
effects ws (created_post p i) = (use_create_post ws).on_success p i
effects ws (updated_post p i) = (use_update_post ws).on_success p i
effects ws (deleted_post i) = (use_delete_post ws).on_success tt i
effects ws (scheduled_post jobs i) = (use_schedule_post ws).on_success jobs i
effects ws (canceled_job i) = (use_cancel_job ws).on_success tt i
effects ws (connected i) = (use_connect_manual ws).on_success tt i
effects ws (disconnected i) = (use_disconnect_channel ws).on_success tt i
effects ws (uploaded asset) = (use_upload_media ws).on_success asset tt
effects ws (deleted_media i) = (use_delete_media ws).on_success tt i
effects ws (added_member m i) = (use_add_member ws).on_success m i
effects ws (set_channels user a i) = (use_set_member_channels ws user).on_success a i
