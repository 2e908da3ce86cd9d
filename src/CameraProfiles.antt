-- ===== src/CameraProfiles.antt =====
-- src/camera-profiles/camera-profiles.service.ts and camera-profile.masking.ts: the profiles of
-- cameras, whose secrets are encrypted in the database.
-- `STORAGE_SECRET_KEYS` is the one field `pass` and `CAMERA_SECRET_KEYS` the one field `password`.
-- What `crypto.randomBytes(12)` returns is an argument, one vector for each secret.
pub mod Secrets
pub mod Stored
pub mod Connections
pub mod Removal
use reolink_station.Prelude.{
  ℕ, String, Bool, true, false, not, ◌||◌, Option, none, some, List, map, if◌then◌else◌,
}
use reolink_station.Entities.{StorageConfig, CameraConfig, CameraProfileEntity}
use reolink_station.Database.{Database, Tables}
use reolink_station.Http.{Result, ok, err, not_found}
use reolink_station.Crypto.{NodeCrypto, encrypt, decrypt, is_encrypted}
use reolink_station.Prelude.Split.{is_empty}
use reolink_station.Sharing.{revoke_all_for_profile}

-- A field of the body of an update: `absent` is `undefined`, `present none` is `null`.
pub data Field (A : Type 0) : Type 0 where
  absent : Field A
  present : Option A → Field A

-- The validated bodies, without what the `whitelist` of the validation strips.
pub record StorageUpdate : Type 0 where
  pub host : Field String
  pub port : Field ℕ
  pub user_name : Field String
  pub pass : Field String
  pub base_path : Field String

pub record CameraUpdate : Type 0 where
  pub uid : Field String
  pub password : Field String

pub record UpdateDto : Type 0 where
  pub name : Option String
  pub storage : Option StorageUpdate
  pub camera : Option CameraUpdate

pub record CreateDto : Type 0 where
  pub name : String
  pub storage : StorageConfig
  pub camera : CameraConfig

-- `maskStorage`, `maskCamera` and `toMasked`
pub record MaskedStorage : Type 0 where
  pub host : Option String
  pub port : Option ℕ
  pub user_name : Option String
  pub base_path : Option String
  pub has_pass : Bool

-- what `findOneDecryptedForConnection` returns
pub record Connection : Type 0 where
  pub id : String
  pub storage : StorageConfig
  pub camera : CameraConfig

pub record MaskedCamera : Type 0 where
  pub uid : Option String
  pub has_password : Bool

pub record Masked : Type 0 where
  pub id : String
  pub name : String
  pub storage : MaskedStorage
  pub camera : MaskedCamera
  pub created_at : ℕ

-- `!!value`
unfoldable pub is_truthy : Option String → Bool
is_truthy none = false
is_truthy (some v) = not (is_empty v)

abbrev pub mask_storage : StorageConfig → MaskedStorage
mask_storage s = record {
  host = s.host;
  port = s.port;
  user_name = s.user_name;
  base_path = s.base_path;
  has_pass = is_truthy s.pass;
}

abbrev pub mask_camera : CameraConfig → MaskedCamera
mask_camera c = record { uid = c.uid; has_password = is_truthy c.password }

abbrev pub to_masked : CameraProfileEntity → Masked
to_masked p = record {
  id = p.id;
  name = p.name;
  storage = mask_storage p.storage_config;
  camera = mask_camera p.camera_config;
  created_at = p.created_at;
}

-- `stripBlank` on a field of text; a number is never blank
unfoldable pub strip_blank : Field String → Field String
strip_blank absent = absent
strip_blank (present none) = present none
strip_blank (present (some v)) = if is_empty v then absent else present (some v)

-- `{ ...stored, ...update }` on one field
unfoldable pub spread : {A : Type 0} → Option A → Field A → Option A
spread stored absent = stored
spread stored (present v) = v

abbrev pub merge_storage : StorageConfig → StorageUpdate → StorageConfig
merge_storage s u = record {
  host = spread s.host (strip_blank u.host);
  port = spread s.port u.port;
  user_name = spread s.user_name (strip_blank u.user_name);
  pass = spread s.pass (strip_blank u.pass);
  base_path = spread s.base_path (strip_blank u.base_path);
}

abbrev pub merge_camera : CameraConfig → CameraUpdate → CameraConfig
merge_camera c u = record {
  uid = spread c.uid (strip_blank u.uid);
  password = spread c.password (strip_blank u.password);
}

module _ (db : Database) where
  abbrev pub save_profile : CameraProfileEntity → Tables → Tables
  save_profile p t = record t { profiles = db.profiles.save p t.profiles }

  unfoldable pub load : String → Tables → Option CameraProfileEntity
  load id t = db.profiles.find_one (λ p. db.uuid.same p.id id) t.profiles

  unfoldable pub get_masked : String → Tables → Result Masked
  unfolding load
  get_masked id t = elim (load id t) [ none ↦ err not_found | some p ↦ ok (to_masked p) ]

  unfoldable pub remove : String → Tables → Tables
  unfolding revoke_all_for_profile
  remove id t =
      let t' = revoke_all_for_profile db id t in
      record t' { profiles = db.profiles.delete (λ p. db.uuid.same p.id id) t'.profiles }

  abbrev pub list_all_ids : Tables → List String
  list_all_ids t = map (λ p. p.id) (db.profiles.find (λ p. true) t.profiles)

unfoldable pub put_pass : StorageConfig → Option (Option String) → Option StorageConfig
put_pass s none = none
put_pass s (some pass) = some (record s { pass = pass })

unfoldable pub put_password : CameraConfig → Option (Option String) → Option CameraConfig
put_password c none = none
put_password c (some password) = some (record c { password = password })

unfoldable pub connect : String → Option StorageConfig → Option CameraConfig → Option Connection
connect id none c = none
connect id (some s) none = none
connect id (some s) (some c) = some (record { id = id; storage = s; camera = c })

module _ {Bytes : Type 0} (node : NodeCrypto Bytes) (key : Bytes) where
  -- the body of the loop of `encSecrets`
  unfoldable pub enc_secret : Bytes → Option String → Option String
  enc_secret iv none = none
  enc_secret iv (some v) =
      if is_empty v || is_encrypted node key v then some v else some (encrypt node key iv v)

  -- the body of the loop of `decSecrets`; `none` where `decrypt` throws
  unfoldable pub dec_secret : Option String → Option (Option String)
  dec_secret none = some none
  dec_secret (some v) =
      if is_encrypted node key v
      then elim (decrypt node key v) [ some text ↦ some (some text) | none ↦ none ]
      else some (some v)

  abbrev pub enc_storage : Bytes → StorageConfig → StorageConfig
  enc_storage iv s = record s { pass = enc_secret iv s.pass }

  abbrev pub enc_camera : Bytes → CameraConfig → CameraConfig
  enc_camera iv c = record c { password = enc_secret iv c.password }

  -- `decSecrets`; `none` where it throws
  abbrev pub dec_storage : StorageConfig → Option StorageConfig
  dec_storage s = put_pass s (dec_secret s.pass)

  abbrev pub dec_camera : CameraConfig → Option CameraConfig
  dec_camera c = put_password c (dec_secret c.password)

  abbrev pub decrypted : CameraProfileEntity → Option Connection
  decrypted p = connect p.id (dec_storage p.storage_config) (dec_camera p.camera_config)

  -- what `update` does with the row
  unfoldable pub update_storage : Bytes → Option StorageUpdate → StorageConfig → StorageConfig
  update_storage iv none s = s
  update_storage iv (some u) s = enc_storage iv (merge_storage s u)

  unfoldable pub update_camera : Bytes → Option CameraUpdate → CameraConfig → CameraConfig
  update_camera iv none c = c
  update_camera iv (some u) c = enc_camera iv (merge_camera c u)

  unfoldable pub update_name : Option String → String → String
  update_name none name = name
  update_name (some n) name = if is_empty n then name else n

  unfoldable pub updated : Bytes → Bytes → UpdateDto → CameraProfileEntity → CameraProfileEntity
  unfolding update_storage update_camera update_name
  updated iv iv' dto p = record p {
    name = update_name dto.name p.name;
    storage_config = update_storage iv dto.storage p.storage_config;
    camera_config = update_camera iv' dto.camera p.camera_config;
  }

  -- the row that `create` saves
  unfoldable pub created : Bytes → Bytes → String → String → ℕ → CreateDto → CameraProfileEntity
  created iv iv' id owner_id now dto = record {
    id = id;
    owner_id = owner_id;
    name = dto.name;
    storage_config = enc_storage iv dto.storage;
    camera_config = enc_camera iv' dto.camera;
    created_at = now;
  }

  module _ (db : Database) where
    unfoldable pub create :
        Bytes → Bytes → String → ℕ → CreateDto → Tables → CameraProfileEntity × Tables
    unfolding created
    create iv iv' owner_id now dto t =
        let p = created iv iv' (db.profiles.new_key t.profiles) owner_id now dto in
        (p, save_profile db p t)

    -- `findOneDecryptedForConnection`; `ok none` where `decSecrets` throws
    unfoldable pub find_one_decrypted : String → Tables → Result (Option Connection)
    unfolding load
    find_one_decrypted id t = elim (load db id t) [
      | none ↦ err not_found
      | some p ↦ ok (decrypted p)
    ]

    unfoldable pub update_loaded :
        Bytes → Bytes → UpdateDto → Tables → Option CameraProfileEntity → Result Masked × Tables
    unfolding updated
    update_loaded iv iv' dto t none = (err not_found, t)
    update_loaded iv iv' dto t (some p) =
        (ok (to_masked (updated iv iv' dto p)), save_profile db (updated iv iv' dto p) t)

    unfoldable pub update : Bytes → Bytes → String → UpdateDto → Tables → Result Masked × Tables
    unfolding load update_loaded
    update iv iv' id dto t = update_loaded iv iv' dto t (load db id t)
