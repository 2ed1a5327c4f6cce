-- ===== src/Web/Data/Mutations.antt =====
-- The mutations of web/src/data that name a workspace, with what each was given and returned, and
-- what it tells the query cache.
pub mod Isolation
pub mod Refetch
pub mod Cascade
use postal.Prelude.{Option, String, Text, ℕ, List, Bool}
use postal.Schema.{
  Post, VariantInput, Job, Slot, SlotRequest, Asset, Member, Integration, ChannelAccess,
}
use postal.Query.{Effect, Mutation}
use postal.Web.Data.Posts.{use_create_post, use_update_post, use_delete_post}
use postal.Web.Data.Schedule.{
  ScheduleInput, use_schedule_post, use_cancel_job, use_create_slot, use_delete_slot,
}
use postal.Web.Data.Channels.{use_connect_manual, use_disconnect_channel}
use postal.Web.Data.Media.{use_upload_media, use_delete_media}
use postal.Web.Data.Workspaces.{MemberInput, use_add_member, use_update_capabilities}
use postal.Web.Data.Billing.{TopupProvider, use_topup}
use postal.Web.Data.Integrations.{ConfigureIntegrationInput, use_configure_integration}
use postal.Web.Data.Governance.{Loaded, use_set_member_channels}

pub data Done : Type 0 where
  created_post : Post → List VariantInput → Done
  updated_post : Post → String × List VariantInput → Done
  deleted_post : String → Done
  scheduled_post : List Job → ScheduleInput → Done
  canceled_job : String → Done
  created_slot : Slot → SlotRequest → Done
  deleted_slot : String × String → Done
  connected : String × List (String × Text) → Done
  disconnected : String → Done
  uploaded : Asset → Done
  deleted_media : String → Done
  added_member : Option Member → MemberInput → Done
  updated_capabilities : Option Member → MemberInput → Done
  topped_up : Text → TopupProvider × ℕ → Done
  configured : Integration → ConfigureIntegrationInput → Done
  set_channels : String → Loaded ChannelAccess → Bool × List String → Done

unfoldable pub effects : String → Done → List Effect
unfolding use_create_post use_update_post use_delete_post use_schedule_post use_cancel_job
    use_create_slot use_delete_slot use_connect_manual use_disconnect_channel use_upload_media
    use_delete_media use_add_member use_update_capabilities use_topup use_configure_integration
    use_set_member_channels
effects ws (created_post p i) = (use_create_post ws).on_success p i
effects ws (updated_post p i) = (use_update_post ws).on_success p i
effects ws (deleted_post i) = (use_delete_post ws).on_success tt i
effects ws (scheduled_post jobs i) = (use_schedule_post ws).on_success jobs i
effects ws (canceled_job i) = (use_cancel_job ws).on_success tt i
effects ws (created_slot slot i) = (use_create_slot ws).on_success slot i
effects ws (deleted_slot i) = (use_delete_slot ws).on_success tt i
effects ws (connected i) = (use_connect_manual ws).on_success tt i
effects ws (disconnected i) = (use_disconnect_channel ws).on_success tt i
effects ws (uploaded asset) = (use_upload_media ws).on_success asset tt
effects ws (deleted_media i) = (use_delete_media ws).on_success tt i
effects ws (added_member m i) = (use_add_member ws).on_success m i
effects ws (updated_capabilities m i) = (use_update_capabilities ws).on_success m i
effects ws (topped_up url i) = (use_topup ws).on_success url i
effects ws (configured x i) = (use_configure_integration ws).on_success x i
effects ws (set_channels user a i) = (use_set_member_channels ws user).on_success a i
