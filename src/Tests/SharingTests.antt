-- ===== src/Tests/SharingTests.antt =====
-- Sharing at concrete tables.
use reolink_station.Prelude.{
  String, [], ◌∷◌, true, false, none, some, ◌≡◌, ◌≢◌, In, inl, inr, refl, sym, ap, ◌∙◌, arith,
  eq_iff, ◌↔◌, ◌⊎◌,
}
use reolink_station.Entities.{user, UserEntity, view, manage, StorageConfig, CameraProfileEntity}
use reolink_station.Database.{Database, Tables}
use reolink_station.Http.{ok, err, not_found, forbidden}
use reolink_station.Sharing.{
  AccessLevel, owner_level, manage_level, view_level, find_by_email, access, accessible_profile_ids,
  can_activate, grant, revoke,
}
use reolink_station.Sharing.Uuid.{is_uuid}
use reolink_station.Sharing.Entitled.{WellFormed, Entitled, access_iff}
use reolink_station.Sharing.Grant.{grant-WellFormed, access-grant_self, access-grant_other}
use reolink_station.Sharing.Revoke.{access-revoke_self, access-revoke_other}
use reolink_station.Sharing.Guard.{can_activate_manage_iff, can_activate_hidden, accessible_sound}
use reolink_station.Tests.ListTables.{plain_uuid, list_repository}

unfoldable pub database : Database
unfolding plain_uuid list_repository
database = record {
  uuid = plain_uuid;
  users = list_repository (λ r. r.id);
  profiles = list_repository (λ r. r.id);
  shares = list_repository (λ r. r.id);
}

abbrev pub front_door : String
front_door = "01234567-89ab-cdef-0123-456789abcdef"

abbrev ann : UserEntity
ann = record { id = "u-ann"; email = "ann@x"; password_hash = "h1"; role = user }

abbrev bob : UserEntity
bob = record { id = "u-bob"; email = "bob@x"; password_hash = "h2"; role = user }

abbrev no_storage : StorageConfig
no_storage = record { host = none; port = none; user_name = none; pass = none; base_path = none }

abbrev pub door : CameraProfileEntity
door = record {
  id = front_door;
  owner_id = "u-ann";
  name = "door";
  storage_config = no_storage;
  camera_config = record { uid = none; password = none };
  created_at = 0;
}

abbrev pub tables : Tables
tables = record { users = ann ∷ bob ∷ []; profiles = door ∷ []; shares = [] }

sharing_tests :
    (access database "u-ann" front_door tables ≡ some owner_level)
    × (access database "u-bob" front_door tables ≡ none)
    × (access database "u-ann" "not-a-uuid" tables ≡ none)
    × (access database "u-bob" front_door (grant database front_door "bob@x" view tables).1
        ≡ some view_level)
    × (can_activate database true "u-bob" front_door
          (grant database front_door "bob@x" view tables).1
        ≡ err forbidden)
    × ((grant database front_door "eve@x" view tables).0 ≡ err not_found)
unfolding database access is_uuid grant can_activate
sharing_tests = (refl, refl, refl, refl, refl, refl)

one_door : (p : CameraProfileEntity) → In p tables.profiles → p ≡ door
one_door p (inl e) = e
one_door p (inr none_else) = absurd none_else

pub tables-WellFormed : WellFormed database tables
tables-WellFormed = record {
  profile_key = λ p q mp mq h. one_door p mp ∙ sym (one_door q mq);
  share_key = λ s r m n h. absurd m;
  share_pair = λ s r m n h k. absurd m;
}

door_is_uuid : is_uuid front_door ≡ true
unfolding is_uuid
door_is_uuid = refl

bob_found : find_by_email database "bob@x" tables ≡ some bob
unfolding find_by_email database
bob_found = refl

same_door : database.uuid.same front_door front_door ≡ true
unfolding database
same_door = refl

ann_not_bob : ◌≢◌ {A = String} "u-ann" "u-bob"
ann_not_bob = ground (arith, eq_iff "u-ann" "u-bob")

access_iff_example :
    (access database "u-bob" front_door tables ≡ some view_level)
    ↔ Entitled database tables "u-bob" front_door view_level
access_iff_example =
    access_iff database tables "u-bob" front_door view_level tables-WellFormed door_is_uuid

grant-WellFormed_example : WellFormed database (grant database front_door "bob@x" view tables).1
grant-WellFormed_example =
    grant-WellFormed database tables front_door "bob@x" view tables-WellFormed

access-grant_self_example :
    access database "u-bob" front_door (grant database front_door "bob@x" manage tables).1
    ≡ some manage_level
access-grant_self_example =
    access-grant_self database tables front_door "bob@x" manage tables-WellFormed bob door
      door_is_uuid bob_found (inl refl) same_door ann_not_bob

apart : ¬ (
    (database.uuid.same front_door front_door ≡ true) × (database.uuid.same "u-ann" "u-bob" ≡ true))
unfolding database plain_uuid
apart h = ann_not_bob ((eq_iff "u-ann" "u-bob").0 h.1)

access-grant_other_example :
    access database "u-ann" front_door (grant database front_door "bob@x" view tables).1
    ≡ access database "u-ann" front_door tables
access-grant_other_example =
    access-grant_other database tables front_door "bob@x" view tables-WellFormed bob "u-ann"
      front_door bob_found apart

access-revoke_self_example :
    (access database "u-bob" front_door (revoke database front_door "u-bob" tables) ≡ none)
    ⊎ (access database "u-bob" front_door (revoke database front_door "u-bob" tables)
        ≡ some owner_level)
access-revoke_self_example = access-revoke_self database tables front_door "u-bob"

access-revoke_other_example :
    access database "u-ann" front_door (revoke database front_door "u-bob" tables)
    ≡ access database "u-ann" front_door tables
access-revoke_other_example =
    access-revoke_other database tables front_door "u-bob" "u-ann" front_door tables-WellFormed
      apart

can_activate_manage_iff_example :
    ((l : AccessLevel) × (can_activate database true "u-ann" front_door tables ≡ ok l)) ↔ (
      Entitled database tables "u-ann" front_door owner_level
      ⊎ Entitled database tables "u-ann" front_door manage_level)
can_activate_manage_iff_example =
    can_activate_manage_iff database tables "u-ann" front_door tables-WellFormed door_is_uuid

bob_shut_out : access database "u-bob" front_door tables ≡ none
unfolding database access is_uuid
bob_shut_out = refl

pub bob_not-Entitled : (l : AccessLevel) → ¬ Entitled database tables "u-bob" front_door l
bob_not-Entitled l h =
    let found =
      (access_iff database tables "u-bob" front_door l tables-WellFormed door_is_uuid).1 h in
    cc (found, bob_shut_out)

can_activate_hidden_example : can_activate database false "u-bob" front_door tables ≡ err not_found
can_activate_hidden_example =
    can_activate_hidden database tables false "u-bob" front_door bob_not-Entitled

ann_owns : access database "u-ann" front_door tables ≡ some owner_level
unfolding database access is_uuid
ann_owns = refl

door_listed : In front_door (accessible_profile_ids database "u-ann" tables)
unfolding accessible_profile_ids database
door_listed = inl refl

accessible_sound_example : (l : AccessLevel) × (access database "u-ann" front_door tables ≡ some l)
accessible_sound_example =
    accessible_sound database tables "u-ann" front_door tables-WellFormed (λ s m. absurd m)
      (λ p m h. ap (λ (q : CameraProfileEntity). q.owner_id) (one_door p m)) door_is_uuid
      door_listed
