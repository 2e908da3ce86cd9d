-- ===== src/Entities.antt =====
-- The rows of the database: src/users/user.entity.ts, src/sharing/camera-share.entity.ts,
-- src/camera-profiles/camera-profile.entity.ts and camera-profile.config.ts.
-- Columns that no code reads (`updatedAt`, most `createdAt`) are left out. A `uuid` is its text.
use reolink_station.Prelude.{ℕ, String, Option}

pub data UserRole : Type 0 where
  user admin : UserRole

pub record UserEntity : Type 0 where
  pub id : String
  pub email : String
  pub password_hash : String
  pub role : UserRole

pub data SharePermission : Type 0 where
  view manage : SharePermission

pub record CameraShareEntity : Type 0 where
  pub id : String
  pub camera_profile_id : String
  pub grantee_id : String
  pub permission : SharePermission

-- The two configurations are stored as `jsonb`, and an update can put `null` in a field: `none`.
pub record StorageConfig : Type 0 where
  pub host : Option String
  pub port : Option ℕ
  pub user_name : Option String
  pub pass : Option String
  pub base_path : Option String

-- `codec` is always 'h264'.
pub record CameraConfig : Type 0 where
  pub uid : Option String
  pub password : Option String

pub record CameraProfileEntity : Type 0 where
  pub id : String
  pub owner_id : String
  pub name : String
  pub storage_config : StorageConfig
  pub camera_config : CameraConfig
  pub created_at : ℕ
