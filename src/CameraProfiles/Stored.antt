-- ===== src/CameraProfiles/Stored.antt =====
-- The secrets of the profiles in the database, and what a connection reads of them.
use reolink_station.Prelude.{
  ℕ, String, Option, none, some, ◌≡◌, sym, inl, inr, In, Option-cases, subst,
}
use reolink_station.Entities.{StorageConfig, CameraConfig, CameraProfileEntity}
use reolink_station.Database.{Database, Tables}
use reolink_station.Crypto.{NodeCrypto}
use reolink_station.CameraProfiles.{
  Field, StorageUpdate, CameraUpdate, UpdateDto, CreateDto, created, create, updated, update,
  update_loaded, update_storage, update_camera, load,
}
use reolink_station.CameraProfiles.Secrets.{
  AtRest, Writable, WritableField, enc_secret-AtRest, spread-AtRest,
}

module _ {Bytes : Type 0} (node : NodeCrypto Bytes) (key : Bytes) where
  -- No secret of the row lies in the clear.
  abbrev pub Sealed : CameraProfileEntity → Type 0
  Sealed p = AtRest node key p.storage_config.pass × AtRest node key p.camera_config.password

  abbrev pub AllSealed : Tables → Type 0
  AllSealed t = (p : CameraProfileEntity) → In p t.profiles → Sealed p

  -- what the update says of the two secrets
  abbrev pub StorageSays : (Field String → Type 0) → Option StorageUpdate → Type 0
  StorageSays P none = Unit {0}
  StorageSays P (some u) = P u.pass

  abbrev pub CameraSays : (Field String → Type 0) → Option CameraUpdate → Type 0
  CameraSays P none = Unit {0}
  CameraSays P (some u) = P u.password

  update_storage-AtRest :
      (iv : Bytes) (o : Option StorageUpdate) (s : StorageConfig)
      → node.size iv ≡ 12
      → StorageSays (WritableField node key) o
      → AtRest node key s.pass
      → AtRest node key (update_storage node key iv o s).pass
  unfolding update_storage
  update_storage-AtRest iv none s twelve w a = a
  update_storage-AtRest iv (some u) s twelve w a =
      spread-AtRest node key iv s.pass u.pass twelve a w

  update_camera-AtRest :
      (iv : Bytes) (o : Option CameraUpdate) (c : CameraConfig)
      → node.size iv ≡ 12
      → CameraSays (WritableField node key) o
      → AtRest node key c.password
      → AtRest node key (update_camera node key iv o c).password
  unfolding update_camera
  update_camera-AtRest iv none c twelve w a = a
  update_camera-AtRest iv (some u) c twelve w a =
      spread-AtRest node key iv c.password u.password twelve a w

  updated-Sealed :
      (iv iv' : Bytes) (dto : UpdateDto) (p : CameraProfileEntity)
      → node.size iv ≡ 12
      → node.size iv' ≡ 12
      → StorageSays (WritableField node key) dto.storage
      → CameraSays (WritableField node key) dto.camera
      → Sealed p
      → Sealed (updated node key iv iv' dto p)
  unfolding updated
  updated-Sealed iv iv' dto p a b ws wc s = (
    update_storage-AtRest iv dto.storage p.storage_config a ws s.0,
    update_camera-AtRest iv' dto.camera p.camera_config b wc s.1,
  )

  module _ (db : Database) where
    saved-AllSealed :
        (t : Tables) (x : CameraProfileEntity)
        → AllSealed t
        → Sealed x
        → (p : CameraProfileEntity) → In p (db.profiles.save x t.profiles)
        → Sealed p
    saved-AllSealed t x all s p m = elim ((db.profiles.in_save x t.profiles p).0 m) [
      | inl e ↦ subst Sealed (sym e) s
      | inr (old, apart) ↦ all p old
    ]

    -- An update of tables in which every secret is empty or encrypted leaves them so, whatever it
    -- updates, for vectors of 12 bytes and well-formed texts.
    pub update-AllSealed :
        (iv iv' : Bytes) (id : String) (dto : UpdateDto) (t : Tables)
        → node.size iv ≡ 12
        → node.size iv' ≡ 12
        → StorageSays (WritableField node key) dto.storage
        → CameraSays (WritableField node key) dto.camera
        → AllSealed t
        → AllSealed (update node key db iv iv' id dto t).1
    unfolding update update_loaded load
    update-AllSealed iv iv' id dto t a b ws wc all = elim (Option-cases (load db id t)) [
      | inl missing ↦ rw missing all
      | inr (x, found) ↦
          let hit = db.profiles.find_one_hit _ _ _ found in
          rw found (
            saved-AllSealed t (updated node key iv iv' dto x) all
              (updated-Sealed iv iv' dto x a b ws wc (all x hit.0)))
    ]

    -- The creation of a profile in tables in which every secret is empty or encrypted leaves them
    -- so, for vectors of 12 bytes and well-formed texts.
    pub create-AllSealed :
        (iv iv' : Bytes) (owner_id : String) (now : ℕ) (dto : CreateDto) (t : Tables)
        → node.size iv ≡ 12
        → node.size iv' ≡ 12
        → Writable node key dto.storage.pass
        → Writable node key dto.camera.password
        → AllSealed t
        → AllSealed (create node key db iv iv' owner_id now dto t).1
    unfolding create created
    create-AllSealed iv iv' owner_id now dto t a b ws wc all =
        saved-AllSealed t
          (created node key iv iv' (db.profiles.new_key t.profiles) owner_id now dto) all
          (
            enc_secret-AtRest node key iv dto.storage.pass a ws,
            enc_secret-AtRest node key iv' dto.camera.password b wc,
          )
