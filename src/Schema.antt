-- ===== src/Schema.antt =====
-- The values of the HTTP contract that the clients read and write: the component schemas of
-- web/src/api/schema.d.ts, which mobile/src/api/schema.d.ts repeats. Identifiers and times are texts
-- that the clients only compare.
use postal.Prelude.{ℕ, String, Text, Option, List, Bool}

pub record User : Type 0 where
  pub id : String
  pub email : String
  pub email_verified : Bool
  pub status : String
  pub created_at : String

pub record Token : Type 0 where
  pub access_token : Text
  pub token_type : String
  pub expires_in : ℕ
  pub csrf_token : Text
  pub refresh_token : Option Text
  pub user : Option User

pub record Workspace : Type 0 where
  pub id : String
  pub name : String
  pub owner_user_id : String
  pub plan : String
  pub created_at : String

pub data Role : Type 0 where
  owner admin editor viewer custom : Role

pub data Capability : Type 0 where
  read create update delete upload publish manage_channels manage_members manage_workspace :
      Capability

pub record Member : Type 0 where
  pub workspace_id : String
  pub user_id : String
  pub role : Role
  pub permissions : List Capability

pub data ChannelStatus : Type 0 where
  active expired revoked : ChannelStatus

pub record Channel : Type 0 where
  pub id : String
  pub platform : String
  pub platform_account_id : String
  pub handle : Text
  pub display_name : Text
  pub status : ChannelStatus
  pub connected_by : Option String
  pub created_at : String

pub data MediaKind : Type 0 where
  image gif video : MediaKind

pub record MediaMeta : Type 0 where
  pub media_id : String
  pub kind : MediaKind
  pub mime : String
  pub bytes : ℕ

-- `platform_options` is written and read by no client.
pub record VariantInput : Type 0 where
  pub channel_id : String
  pub body : Option Text
  pub media : Option (List MediaMeta)

pub record Variant : Type 0 where
  pub id : String
  pub channel_id : String
  pub body : Text
  pub media : Option (List MediaMeta)

pub record Post : Type 0 where
  pub id : String
  pub workspace_id : String
  pub author_user_id : Option String
  pub status : String
  pub created_at : String
  pub variants : Option (List Variant)

pub record VariantValidation : Type 0 where
  pub channel_id : String
  pub valid : Bool
  pub code : Option String
  pub message : Option String

pub data JobStatus : Type 0 where
  scheduled publishing published failed canceled : JobStatus

pub record Job : Type 0 where
  pub id : String
  pub post_id : String
  pub channel_id : String
  pub run_at : String
  pub status : JobStatus
  pub attempts : ℕ
  pub last_error : Option String
  pub created_at : String

pub record Slot : Type 0 where
  pub id : String
  pub channel_id : String
  pub day_of_week : ℕ
  pub time_of_day : String
  pub timezone : String
  pub created_at : String

pub record SlotRequest : Type 0 where
  pub channel_id : String
  pub day_of_week : ℕ
  pub time_of_day : String
  pub timezone : String

pub record Asset : Type 0 where
  pub id : String
  pub workspace_id : String
  pub kind : MediaKind
  pub mime : String
  pub width : ℕ
  pub height : ℕ
  pub duration_ms : ℕ
  pub bytes : ℕ
  pub status : String
  pub created_at : String

pub record PostMetrics : Type 0 where
  pub post_id : String
  pub channel_id : String
  pub platform_post_id : String
  pub metrics : List (String × ℕ)
  pub captured_at : String

pub record ChannelMetrics : Type 0 where
  pub channel_id : String
  pub platform_post_id : String
  pub metrics : List (String × ℕ)
  pub captured_at : String

pub record SeriesPoint : Type 0 where
  pub value : ℕ
  pub captured_at : String

pub record Integration : Type 0 where
  pub provider : String
  pub enabled : Bool
  pub auto_apply : Bool
  pub configured : Bool
  pub updated_at : String

pub record LinkPreview : Type 0 where
  pub url : Text
  pub site_name : String
  pub title : String
  pub description : String
  pub image : String

pub record Wallet : Type 0 where
  pub workspace_id : String
  pub balance : ℕ
  pub publish_costs : List (String × ℕ)
  pub updated_at : String

pub data LedgerKind : Type 0 where
  topup publish_charge refund adjustment : LedgerKind

pub record LedgerEntry : Type 0 where
  pub id : String
  pub workspace_id : String
  pub kind : LedgerKind
  pub credits : ℕ
  pub reference : String
  pub note : String
  pub created_at : String

-- What the governance endpoints return; they are not in the generated schema.
pub record ChannelAccess : Type 0 where
  pub restricted : Bool
  pub allowed_channel_ids : List String

pub record ActivityEntry : Type 0 where
  pub id : ℕ
  pub actor_email : String
  pub action : String
  pub target : String
  pub created_at : String
