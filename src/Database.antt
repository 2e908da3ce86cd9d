-- ===== src/Database.antt =====
-- The database that the services share: its tables of users, profiles and shares, and the
-- repositories through which they are read and written.
use reolink_station.Prelude.{List}
use reolink_station.Tables.{UuidColumn, Repository}
use reolink_station.Entities.{UserEntity, CameraShareEntity, CameraProfileEntity}

pub record Database : Type 0 where
  pub uuid : UuidColumn
  pub users : Repository UserEntity (λ r. r.id)
  pub profiles : Repository CameraProfileEntity (λ r. r.id)
  pub shares : Repository CameraShareEntity (λ r. r.id)

pub record Tables : Type 0 where
  pub users : List UserEntity
  pub profiles : List CameraProfileEntity
  pub shares : List CameraShareEntity
