-- ===== src/CameraProfiles/Connections.antt =====
-- What `findOneDecryptedForConnection` reads of a profile, after it was created or updated.
use reolink_station.Prelude.{
  ℕ, String, same_text, eq_iff, Bool-cases, if◌then◌else◌, Option, none, some, ◌≡◌, refl, ap, sym,
  ◌∙◌, inl, inr, Option-cases,
}
use reolink_station.Prelude.Split.{is_empty}
use reolink_station.Tables.Lookup.{find_one_unique}
use reolink_station.Entities.{StorageConfig, CameraConfig, CameraProfileEntity}
use reolink_station.Database.{Database, Tables}
use reolink_station.Http.{ok}
use reolink_station.Crypto.{NodeCrypto}
use reolink_station.Sharing.Entitled.{WellFormed, same_join}
use reolink_station.CameraProfiles.{
  Field, absent, present, strip_blank, spread, put_pass, put_password, dec_storage, dec_camera,
  connect, enc_camera, save_profile, StorageUpdate, CameraUpdate, UpdateDto, CreateDto, Connection,
  dec_secret, decrypted, created, updated, update, update_loaded, update_storage, update_camera,
  load, find_one_decrypted, merge_storage, merge_camera,
}
use reolink_station.CameraProfiles.Secrets.{
  AtRest, Plain, PlainField, dec_secret_total, dec_secret-enc_secret, dec_secret-spread,
}
use reolink_station.CameraProfiles.Stored.{Sealed, AllSealed, StorageSays, CameraSays}

-- What an update says of a field, by the field alone: one that is left out or blank keeps what was
-- stored, `null` takes it away, and any other text replaces it.
abbrev pub said_text : Option String → Field String → Option String
said_text stored absent = stored
said_text stored (present none) = none
said_text stored (present (some v)) = if same_text v "" then stored else some v

abbrev pub said_number : Option ℕ → Field ℕ → Option ℕ
said_number stored absent = stored
said_number stored (present none) = none
said_number stored (present (some n)) = some n

-- an update of what a connection reads
abbrev pub merged_storage : Option StorageUpdate → StorageConfig → StorageConfig
merged_storage none s = s
merged_storage (some u) s = record {
  host = said_text s.host u.host;
  port = said_number s.port u.port;
  user_name = said_text s.user_name u.user_name;
  pass = said_text s.pass u.pass;
  base_path = said_text s.base_path u.base_path;
}

abbrev pub merged_camera : Option CameraUpdate → CameraConfig → CameraConfig
merged_camera none c = c
merged_camera (some u) c = record {
  uid = said_text c.uid u.uid;
  password = said_text c.password u.password;
}

abbrev pub merged : UpdateDto → Connection → Connection
merged dto c = record {
  id = c.id;
  storage = merged_storage dto.storage c.storage;
  camera = merged_camera dto.camera c.camera;
}

is_empty-same_text : (v : String) → is_empty v ≡ same_text v ""
unfolding is_empty
is_empty-same_text String.[] = refl
is_empty-same_text (String.◌∷◌ c v) = elim (Bool-cases (same_text (String.◌∷◌ c v) "")) [
  | inr e ↦ sym e
  | inl e ↦ cc (ap is_empty ((eq_iff (String.◌∷◌ c v) "").0 e))
]

-- the code's way to the same field
spread-said_text : (o : Option String) (f : Field String) → spread o (strip_blank f) ≡ said_text o f
unfolding spread strip_blank
spread-said_text o absent = refl
spread-said_text o (present none) = refl
spread-said_text o (present (some v)) = elim (Bool-cases (is_empty v)) [
  | inl e ↦ rw (e, sym (is_empty-same_text v) ∙ e) refl
  | inr e ↦ rw (e, sym (is_empty-same_text v) ∙ e) refl
]

spread-said_number : (o : Option ℕ) (f : Field ℕ) → spread o f ≡ said_number o f
unfolding spread
spread-said_number o absent = refl
spread-said_number o (present none) = refl
spread-said_number o (present (some n)) = refl

merge_storage-merged :
    (s : StorageConfig) (u : StorageUpdate) → merge_storage s u ≡ merged_storage (some u) s
merge_storage-merged s u = λ i. record {
  host = spread-said_text s.host u.host i;
  port = spread-said_number s.port u.port i;
  user_name = spread-said_text s.user_name u.user_name i;
  pass = spread-said_text s.pass u.pass i;
  base_path = spread-said_text s.base_path u.base_path i;
}

merge_camera-merged :
    (c : CameraConfig) (u : CameraUpdate) → merge_camera c u ≡ merged_camera (some u) c
merge_camera-merged c u = λ i. record {
  uid = spread-said_text c.uid u.uid i;
  password = spread-said_text c.password u.password i;
}

module _ {Bytes : Type 0} (node : NodeCrypto Bytes) (key : Bytes) where
  -- A profile that was created with secrets that do not look encrypted is read as it was given, for
  -- vectors of 12 bytes and well-formed texts.
  pub decrypted-created :
      (iv iv' : Bytes) (id owner_id : String) (now : ℕ) (dto : CreateDto)
      → node.size iv ≡ 12
      → node.size iv' ≡ 12
      → Plain node key dto.storage.pass
      → Plain node key dto.camera.password
      → decrypted node key (created node key iv iv' id owner_id now dto)
        ≡ some (record { id = id; storage = dto.storage; camera = dto.camera })
  unfolding created connect put_pass put_password
  decrypted-created iv iv' id owner_id now dto a b ps pc =
      ap
        (λ v.
          connect id (put_pass dto.storage v)
            (dec_camera node key (enc_camera node key iv' dto.camera)))
        (dec_secret-enc_secret node key iv dto.storage.pass a ps)
      ∙ ap (λ v. connect id (some dto.storage) (put_password dto.camera v))
          (dec_secret-enc_secret node key iv' dto.camera.password b pc)

  dec_storage-update :
      (iv : Bytes) (o : Option StorageUpdate) (s : StorageConfig) (v : Option String)
      → node.size iv ≡ 12
      → StorageSays node key (PlainField node key) o
      → AtRest node key s.pass
      → dec_secret node key s.pass ≡ some v
      → dec_storage node key (update_storage node key iv o s)
        ≡ some (merged_storage o (record s { pass = v }))
  unfolding update_storage put_pass
  dec_storage-update iv none s v twelve p a e = ap (put_pass s) e
  dec_storage-update iv (some u) s v twelve p a e =
      ap (put_pass (merge_storage s u)) (dec_secret-spread node key iv s.pass v u.pass twelve a p e)
      ∙ ap some (merge_storage-merged (record s { pass = v }) u)

  dec_camera-update :
      (iv : Bytes) (o : Option CameraUpdate) (c : CameraConfig) (v : Option String)
      → node.size iv ≡ 12
      → CameraSays node key (PlainField node key) o
      → AtRest node key c.password
      → dec_secret node key c.password ≡ some v
      → dec_camera node key (update_camera node key iv o c)
        ≡ some (merged_camera o (record c { password = v }))
  unfolding update_camera put_password
  dec_camera-update iv none c v twelve p a e = ap (put_password c) e
  dec_camera-update iv (some u) c v twelve p a e =
      ap (put_password (merge_camera c u))
        (dec_secret-spread node key iv c.password v u.password twelve a p e)
      ∙ ap some (merge_camera-merged (record c { password = v }) u)

  secret_there : (o : Option String) → (v : Option String) × (dec_secret node key o ≡ some v)
  secret_there o = elim (Option-cases (dec_secret node key o)) [
    | inl missing ↦ absurd (dec_secret_total node key o missing)
    | inr found ↦ found
  ]

  -- A row whose secrets are empty or encrypted can be read, and after an update by secrets that do
  -- not look encrypted it is read as the update of what was read before: a blank keeps what was
  -- stored, and nothing is encrypted twice.
  decrypted-updated :
      (iv iv' : Bytes) (dto : UpdateDto) (p : CameraProfileEntity)
      → node.size iv ≡ 12
      → node.size iv' ≡ 12
      → StorageSays node key (PlainField node key) dto.storage
      → CameraSays node key (PlainField node key) dto.camera
      → Sealed node key p
      → (c : Connection) × (decrypted node key p ≡ some c)
        × (decrypted node key (updated node key iv iv' dto p) ≡ some (merged dto c))
  unfolding updated connect put_pass put_password
  decrypted-updated iv iv' dto p a b ps pc s =
      let (v, e) = secret_there p.storage_config.pass in
      let (w, f) = secret_there p.camera_config.password in
      let s' = record p.storage_config { pass = v } in
      let c' = record p.camera_config { password = w } in
      (
        record { id = p.id; storage = s'; camera = c' },
        ap (λ x. connect p.id (put_pass p.storage_config x) (dec_camera node key p.camera_config)) e
            ∙ ap (λ x. connect p.id (some s') (put_password p.camera_config x)) f,
        ap
              (λ x.
                connect p.id x
                  (dec_camera node key (update_camera node key iv' dto.camera p.camera_config)))
              (dec_storage-update iv dto.storage p.storage_config v a ps s.0 e)
            ∙ ap (λ x. connect p.id (some (merged_storage dto.storage s')) x)
                (dec_camera-update iv' dto.camera p.camera_config w b pc s.1 f),
      )

  updated_id :
      (iv iv' : Bytes) (dto : UpdateDto) (p : CameraProfileEntity)
      → (updated node key iv iv' dto p).id ≡ p.id
  unfolding updated
  updated_id iv iv' dto p = refl

  module _ (db : Database) where
    load-saved :
        (t : Tables) (id : String) (p x : CameraProfileEntity)
        → WellFormed db t
        → load db id t ≡ some p
        → x.id ≡ p.id
        → load db id (save_profile db x t) ≡ some x
    unfolding load
    load-saved t id p x w found same =
        let hit = db.profiles.find_one_hit _ _ _ found in
        find_one_unique db.profiles (λ q. db.uuid.same q.id id) (db.profiles.save x t.profiles) x
          ((db.profiles.in_save x t.profiles x).1 (inl refl)) (rw same hit.1)
          (λ q m h. elim ((db.profiles.in_save x t.profiles q).0 m) [
            | inl e ↦ e
            | inr (old, apart) ↦
                let one = w.profile_key q p old hit.0 (same_join db q.id p.id id h hit.1) in
                absurd (apart (ap (λ r. r.id) one ∙ sym same))
          ])

    -- After an update of a profile by secrets that do not look encrypted, over tables that meet
    -- their unique constraints and whose secrets are empty or encrypted, a connection reads what
    -- one read before with the fields that the update says: a field that is left out or blank keeps
    -- what was stored, `null` takes it away, and any other value replaces it. The vectors are of 12
    -- bytes and the texts are well formed.
    pub find_one_decrypted-update :
        (iv iv' : Bytes) (id : String) (dto : UpdateDto) (t : Tables) (p : CameraProfileEntity)
        → node.size iv ≡ 12
        → node.size iv' ≡ 12
        → StorageSays node key (PlainField node key) dto.storage
        → CameraSays node key (PlainField node key) dto.camera
        → AllSealed node key t
        → WellFormed db t
        → load db id t ≡ some p
        → (c : Connection) × (find_one_decrypted node key db id t ≡ ok (some c))
          × (find_one_decrypted node key db id (update node key db iv iv' id dto t).1
              ≡ ok (some (merged dto c)))
    unfolding update update_loaded find_one_decrypted
    find_one_decrypted-update iv iv' id dto t p a b ps pc all w found =
        let hit = db.profiles.find_one_hit _ _ _ (unfold load in found) in
        let (c, before, after) = decrypted-updated iv iv' dto p a b ps pc (all p hit.0) in
        (
          c,
          found-read t p found ∙ ap ok before,
          ap (λ o. find_one_decrypted node key db id (update_loaded node key db iv iv' dto t o).1)
                found
              ∙ found-read (save_profile db (updated node key iv iv' dto p) t)
                  (updated node key iv iv' dto p)
                  (load-saved t id p (updated node key iv iv' dto p) w found
                    (updated_id iv iv' dto p))
              ∙ ap ok after,
        )
      where
        found-read :
            (u : Tables) (q : CameraProfileEntity)
            → load db id u ≡ some q
            → find_one_decrypted node key db id u ≡ ok (decrypted node key q)
        found-read u q h = rw (h, find_one_decrypted) refl
