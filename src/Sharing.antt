-- ===== src/Sharing.antt =====
-- src/sharing/camera-access.service.ts, camera-access.guard.ts and sharing.service.ts, with
-- src/users/users.service.ts: who may use a camera profile, and the sharing of one.
-- The proofs are in the modules below.
pub mod Uuid
pub mod Entitled
pub mod Grant
pub mod Revoke
pub mod Guard
use Prim.Native.Nat.{ℕ}
use reolink_station.Prelude.{
  String, Bool, true, false, ◌&&◌, Option, none, some, List, ◌++◌, map, same_text, if◌then◌else◌,
}
use reolink_station.Tables.{Repository}
use reolink_station.Entities.{
  UserRole, UserEntity, SharePermission, view, manage, CameraShareEntity, CameraProfileEntity,
}
use reolink_station.Database.{Database, Tables}
use reolink_station.Http.{HttpException, not_found, forbidden, Result, ok, err}
use reolink_station.Sharing.Uuid.{is_uuid}

-- `AccessLevel`; its `null` is `none`
pub data AccessLevel : Type 0 where
  owner_level manage_level view_level : AccessLevel

abbrev pub level_of : SharePermission → AccessLevel
level_of manage = manage_level
level_of view = view_level

-- `share ? share.permission : null`
unfoldable pub share_level : Option CameraShareEntity → Option AccessLevel
share_level none = none
share_level (some s) = some (level_of s.permission)

-- the tests of `canActivate` on the level that `access` found
unfoldable pub admit : Bool → Option AccessLevel → Result AccessLevel
admit needs_manage none = err not_found
admit true (some view_level) = err forbidden
admit needs_manage (some level) = ok level

module _ (db : Database) where
  -- `findByEmail` of the users service
  unfoldable pub find_by_email : String → Tables → Option UserEntity
  find_by_email email t = db.users.find_one (λ u. same_text u.email email) t.users

  -- the criterion `{ cameraProfileId, granteeId }`
  abbrev pub of_pair : String → String → CameraShareEntity → Bool
  of_pair profile_id user_id s =
      db.uuid.same s.camera_profile_id profile_id && db.uuid.same s.grantee_id user_id

  -- what `access` does with the profile that it found
  unfoldable pub profile_level :
      String → String → Tables → Option CameraProfileEntity → Option AccessLevel
  unfolding share_level
  profile_level user_id profile_id t none = none
  profile_level user_id profile_id t (some p) =
      if same_text p.owner_id user_id
      then some owner_level
      else share_level (db.shares.find_one (of_pair profile_id user_id) t.shares)

  unfoldable pub access : String → String → Tables → Option AccessLevel
  unfolding profile_level
  access user_id profile_id t =
      if is_uuid profile_id
      then profile_level user_id profile_id t
          (db.profiles.find_one (λ p. db.uuid.same p.id profile_id) t.profiles)
      else none

  unfoldable pub accessible_profile_ids : String → Tables → List String
  accessible_profile_ids user_id t =
      map (λ p. p.id) (db.profiles.find (λ p. db.uuid.same p.owner_id user_id) t.profiles)
      ++ map (λ s. s.camera_profile_id)
          (db.shares.find (λ s. db.uuid.same s.grantee_id user_id) t.shares)

  -- `canActivate`: the level is what it leaves in `req.access`
  unfoldable pub can_activate : Bool → String → String → Tables → Result AccessLevel
  unfolding admit
  can_activate needs_manage user_id profile_id t = admit needs_manage (access user_id profile_id t)

  -- the row that `grant` saves
  unfoldable pub granted_row :
      String → String → SharePermission → Tables → Option CameraShareEntity → CameraShareEntity
  granted_row profile_id grantee_id permission t (some existing) = record existing {
    permission = permission;
  }
  granted_row profile_id grantee_id permission t none = record {
    id = db.shares.new_key t.shares;
    camera_profile_id = profile_id;
    grantee_id = grantee_id;
    permission = permission;
  }

  abbrev pub save_share : CameraShareEntity → Tables → Result CameraShareEntity × Tables
  save_share s t = (ok s, record t { shares = db.shares.save s t.shares })

  unfoldable pub grant_to :
      String → SharePermission → Tables → Option UserEntity → Result CameraShareEntity × Tables
  unfolding granted_row
  grant_to profile_id permission t none = (err not_found, t)
  grant_to profile_id permission t (some grantee) =
      save_share
        (granted_row profile_id grantee.id permission t
          (db.shares.find_one (of_pair profile_id grantee.id) t.shares))
        t

  unfoldable pub grant :
      String → String → SharePermission → Tables → Result CameraShareEntity × Tables
  unfolding grant_to find_by_email
  grant profile_id email permission t = grant_to profile_id permission t (find_by_email email t)

  unfoldable pub revoke : String → String → Tables → Tables
  revoke profile_id grantee_id t = record t {
    shares = db.shares.delete (of_pair profile_id grantee_id) t.shares;
  }

  unfoldable pub revoke_all_for_profile : String → Tables → Tables
  revoke_all_for_profile profile_id t = record t {
    shares = db.shares.delete (λ s. db.uuid.same s.camera_profile_id profile_id) t.shares;
  }
