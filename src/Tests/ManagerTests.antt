-- ===== src/Tests/ManagerTests.antt =====
-- A request to delete files at concrete tables and on the server of ServiceTests.
use reolink_station.Prelude.{
  String, some, none, List, [], ◌∷◌, ◌≡◌, In, Bool, true, inl, refl, sym, subst,
}
use reolink_station.Prelude.Split.{is_empty, split_at}
use reolink_station.Entities.{StorageConfig, CameraProfileEntity}
use reolink_station.Database.{Tables}
use reolink_station.Http.{ok}
use reolink_station.Sharing.{can_activate, access, profile_level, admit}
use reolink_station.Sharing.Uuid.{is_uuid}
use reolink_station.CameraProfiles.{
  load, find_one_decrypted, dec_secret, put_pass, put_password, connect,
}
use reolink_station.Recordings.PathSafety.{resolve_safe, resolve_in, strip_slashes, or_root}
use reolink_station.Recordings.PathSafety.Place
use reolink_station.Recordings.PathSafety.Place.{
  place, segments, enter, render, rendered, starts_slash, ends_slash, IsUnder,
}
use reolink_station.Recordings.Remote.{Config, SftpCall, deleted}
use reolink_station.Recordings.Service.{
  conn, conn_of, resolve, resolve_all, with_connection, call_delete, delete_loop, delete_files,
}
use reolink_station.Controllers.Manager.{profiles_of, remove, MayManage, remove-IsUnder}
use reolink_station.Tests.ListTables.{plain_uuid, list_repository}
use reolink_station.Tests.SharingTests.{database, front_door}
use reolink_station.Tests.PlainPath.{plain_path}
use reolink_station.Tests.ServiceTests.{server, start}
use reolink_station.Tests.ZeroCrypto.{zero_crypto}

abbrev storage : StorageConfig
storage = record {
  host = some "box";
  port = some 22;
  user_name = some "u";
  pass = none;
  base_path = some "/rec";
}

abbrev door : CameraProfileEntity
door = record {
  id = front_door;
  owner_id = "u-ann";
  name = "door";
  storage_config = storage;
  camera_config = record { uid = none; password = none };
  created_at = 0;
}

abbrev tables : Tables
tables = record { users = []; profiles = door ∷ []; shares = [] }

abbrev config : Config
config = record { host = some "box"; port = some 22; user_name = some "u"; pass = none }

abbrev asked : List SftpCall
asked =
    (remove plain_path server database zero_crypto 32 "u-ann" front_door ("d/../a.mp4" ∷ []) tables
      start).1.calls

connected :
    conn plain_path server (profiles_of plain_path server database zero_crypto 32 tables) front_door
    ≡ ok (config, some "/rec")
unfolding conn_of find_one_decrypted load database plain_uuid list_repository dec_secret put_pass
    put_password connect
connected = refl

runs : asked ≡ deleted "/rec/a.mp4" true ∷ []
unfolding remove can_activate access profile_level is_uuid admit delete_files resolve_all
    with_connection delete_loop call_delete conn_of find_one_decrypted load database plain_uuid
    list_repository dec_secret put_pass put_password connect resolve resolve_safe resolve_in
    strip_slashes or_root rendered render place Place.walk segments enter split_at is_empty
    starts_slash ends_slash
runs = refl

was_asked : In (deleted "/rec/a.mp4" true) asked
was_asked = subst (In (deleted "/rec/a.mp4" true)) (sym runs) (inl refl)

remove-IsUnder_example :
    MayManage plain_path server database zero_crypto 32 tables "u-ann" front_door
    × ((p : String) × (done : Bool) × (deleted "/rec/a.mp4" true ≡ deleted p done)
        × IsUnder (place "/rec") (place p)
        × ((rel : String) × In rel ("d/../a.mp4" ∷ [])
            × (resolve plain_path server
                  (profiles_of plain_path server database zero_crypto 32 tables)
                  (some "/rec")
                  rel
                ≡ ok p)))
unfolding starts_slash
remove-IsUnder_example =
    remove-IsUnder plain_path server database zero_crypto 32 "u-ann" front_door ("d/../a.mp4" ∷ [])
      tables start config "/rec" (deleted "/rec/a.mp4" true) refl connected refl was_asked
