-- ===== src/Apps/Types.antt =====
-- The state of the registry (services/apps/registry.go). A `time.Time` is a number of clock ticks
-- with 0 for the zero time, and a `*time.Time` is an option.
use messages.Base.{ℕ, Bool, List, Option, [], Text, Map}
use messages.Json.{Fields}
use messages.Text.{codes}

pub data ReviewStatus : Type 0 where
  draft submitted under_review needs_changes approved rejected suspended revoked : ReviewStatus

pub data SourceType : Type 0 where
  dev external registry : SourceType

pub data Visibility : Type 0 where
  public private : Visibility

pub record Release : Type 0 where
  pub version : Text
  pub manifest : Fields
  pub manifest_hash : Text
  pub review_status : ReviewStatus
  pub review_note : Text
  pub source_type : SourceType
  pub visibility : Visibility
  pub publisher_user_id : Text
  pub supported_platforms : List Text
  pub entrypoint_origin : Text
  pub preview_origin : Text
  pub created_at : ℕ
  pub submitted_at : Option ℕ
  pub reviewed_at : Option ℕ
  pub published_at : Option ℕ
  pub revoked_at : Option ℕ
  pub suspended_at : Option ℕ
  pub suspension_reason : Text
  pub manifest_content_hash : Text
  pub asset_set_hash : Text
  pub immutable_at : Option ℕ
  pub requires_reconsent : Bool
  pub previous_permissions : List Text

pub record App : Type 0 where
  pub app_id : Text
  pub name : Text
  pub owner_user_id : Text
  pub visibility : Visibility
  pub summary : Text
  pub created_at : ℕ
  pub updated_at : ℕ
  pub latest_version : Text
  pub latest_approved : Text
  pub releases : Map Release

pub record Install : Type 0 where
  pub app_id : Text
  pub installed_version : Text
  pub auto_update : Bool
  pub enabled : Bool
  pub installed_at : ℕ
  pub updated_at : ℕ

pub record State : Type 0 where
  pub apps : Map App
  pub installs : Map (Map Install)

-- emptyRegistryState
abbrev pub empty_state : State
empty_state = record { apps = []; installs = [] }

-- The strings that the constants stand for.
unfoldable pub status_text : ReviewStatus → Text
status_text draft = codes "draft"
status_text submitted = codes "submitted"
status_text under_review = codes "under_review"
status_text needs_changes = codes "needs_changes"
status_text approved = codes "approved"
status_text rejected = codes "rejected"
status_text suspended = codes "suspended"
status_text revoked = codes "revoked"

unfoldable pub source_text : SourceType → Text
source_text dev = codes "dev"
source_text external = codes "external"
source_text registry = codes "registry"

unfoldable pub visibility_text : Visibility → Text
visibility_text public = codes "public"
visibility_text private = codes "private"

abbrev pub is_approved : ReviewStatus → Bool
is_approved approved = Bool.true
is_approved _ = Bool.false

abbrev pub is_dev : SourceType → Bool
is_dev dev = Bool.true
is_dev _ = Bool.false

abbrev pub is_public : Visibility → Bool
is_public public = Bool.true
is_public _ = Bool.false
