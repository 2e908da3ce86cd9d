-- ===== src/Tests/ProfileTests.antt =====
-- Encryption and the camera profiles on examples.
use reolink_station.Prelude.{
  ℕ, String, [], ◌∷◌, true, false, some, none, ◌≡◌, refl, sym, ◌∙◌, In, inl, inr, arith,
}
use reolink_station.Entities.{CameraProfileEntity}
use reolink_station.Database.{Tables}
use reolink_station.Http.{ok}
use reolink_station.Sharing.{access}
use reolink_station.Sharing.Entitled.{WellFormed}
use reolink_station.Crypto.{encrypt, decrypt, is_encrypted, encrypted_parts}
use reolink_station.Prelude.Split.{push_front, split_at}
use reolink_station.Crypto.Split.{split, all_base64url, is_base64url}
use reolink_station.Tests.ListTables.{plain_uuid, list_repository, first_of_table}
use reolink_station.Crypto.RoundTrip.{decrypt-encrypt, is_encrypted-encrypt}
use reolink_station.CameraProfiles.{
  absent, present, UpdateDto, CreateDto, Connection, created, decrypted, update, load, remove,
  find_one_decrypted,
}
use reolink_station.CameraProfiles.Stored.{AllSealed, update-AllSealed}
use reolink_station.CameraProfiles.Connections.{
  merged, decrypted-created, find_one_decrypted-update,
}
use reolink_station.CameraProfiles.Removal.{NoOrphans, access-remove}
use reolink_station.Tests.ZeroCrypto.{zero_crypto}
use reolink_station.Tests.SharingTests.{database, front_door}

abbrev key : ℕ
key = 32

-- 12 zeros
abbrev iv : ℕ
iv = 12

abbrev dto : CreateDto
dto = record {
  name = "door";
  storage = record {
    host = some "nas";
    port = some 22;
    user_name = some "cam";
    pass = some "s3cret";
    base_path = some "/rec";
  };
  camera = record { uid = some "UID"; password = some "pw" };
}

abbrev change : UpdateDto
change = record {
  name = none;
  storage = some (record {
    host = absent;
    port = present (some 2222);
    user_name = absent;
    pass = present (some "");
    base_path = absent;
  });
  camera = some (record { uid = absent; password = present (some "newpw") });
}

abbrev door : CameraProfileEntity
door = record {
  id = front_door;
  owner_id = "u-ann";
  name = "door";
  storage_config = record {
    host = some "nas";
    port = some 22;
    user_name = some "cam";
    pass = some (encrypt zero_crypto key iv "s3cret");
    base_path = some "/rec";
  };
  camera_config = record { uid = some "UID"; password = some (encrypt zero_crypto key iv "pw") };
  created_at = 0;
}

abbrev one_door : Tables
one_door = record { users = []; profiles = door ∷ []; shares = [] }

abbrev nothing : Tables
nothing = record { users = []; profiles = []; shares = [] }

writable : zero_crypto.is_well_formed "s3cret" ≡ true
unfolding zero_crypto all_base64url is_base64url
writable = refl

writable_pw : zero_crypto.is_well_formed "pw" ≡ true
unfolding zero_crypto all_base64url is_base64url
writable_pw = refl

writable_new : zero_crypto.is_well_formed "newpw" ≡ true
unfolding zero_crypto all_base64url is_base64url
writable_new = refl

twelve : zero_crypto.size iv ≡ 12
unfolding zero_crypto
twelve = refl

decrypt-encrypt_example :
    decrypt zero_crypto key (encrypt zero_crypto key iv "s3cret") ≡ some "s3cret"
decrypt-encrypt_example = decrypt-encrypt zero_crypto key iv "s3cret" twelve writable

plain_secret : is_encrypted zero_crypto key "s3cret" ≡ false
unfolding is_encrypted encrypted_parts split split_at push_front
plain_secret = refl

plain_pw : is_encrypted zero_crypto key "pw" ≡ false
unfolding is_encrypted encrypted_parts split split_at push_front
plain_pw = refl

plain_new : is_encrypted zero_crypto key "newpw" ≡ false
unfolding is_encrypted encrypted_parts split split_at push_front
plain_new = refl

empty_text : zero_crypto.is_well_formed "" ≡ true
unfolding zero_crypto all_base64url
empty_text = refl

plain_empty : is_encrypted zero_crypto key "" ≡ false
unfolding is_encrypted encrypted_parts split split_at push_front
plain_empty = refl

door-Sealed : AllSealed zero_crypto key one_door
door-Sealed p (inl e) =
    let a = is_encrypted-encrypt zero_crypto key iv "s3cret" twelve writable in
    let b = is_encrypted-encrypt zero_crypto key iv "pw" twelve writable_pw in
    rw e (ground arith, ground arith)
door-Sealed p (inr m) = elim m [ ]

one_door-WellFormed : WellFormed database one_door
one_door-WellFormed = record {
  profile_key = λ p q m n same. the_door p m ∙ sym (the_door q n);
  share_key = λ s r m n same. elim m [ ];
  share_pair = λ s r m n a b. elim m [ ];
}
  where
    the_door : (p : CameraProfileEntity) → In p one_door.profiles → p ≡ door
    the_door p (inl e) = e
    the_door p (inr m) = elim m [ ]

door-loaded : load database front_door one_door ≡ some door
unfolding load database plain_uuid list_repository first_of_table
door-loaded = refl

update-AllSealed_example :
    AllSealed zero_crypto key (update zero_crypto key database iv iv front_door change one_door).1
update-AllSealed_example =
    update-AllSealed zero_crypto key database iv iv front_door change one_door twelve twelve
      empty_text writable_new door-Sealed

decrypted-created_example :
    decrypted zero_crypto key (created zero_crypto key iv iv front_door "u-ann" 5 dto)
    ≡ some (record { id = front_door; storage = dto.storage; camera = dto.camera })
decrypted-created_example =
    decrypted-created zero_crypto key iv iv front_door "u-ann" 5 dto twelve twelve
      (writable, plain_secret) (writable_pw, plain_pw)

find_one_decrypted-update_example :
    (c : Connection) × (find_one_decrypted zero_crypto key database front_door one_door
      ≡ ok (some c))
    × (find_one_decrypted zero_crypto key database front_door
          (update zero_crypto key database iv iv front_door change one_door).1
        ≡ ok (some (merged change c)))
find_one_decrypted-update_example =
    find_one_decrypted-update zero_crypto key database iv iv front_door change one_door door twelve
      twelve (empty_text, plain_empty) (writable_new, plain_new) door-Sealed one_door-WellFormed
      door-loaded

access-remove_example :
    ((user_id : String)
      → access database user_id front_door (remove database front_door one_door) ≡ none)
    × (NoOrphans database one_door → NoOrphans database (remove database front_door one_door))
access-remove_example = access-remove database front_door one_door
