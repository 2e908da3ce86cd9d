-- ===== src/Controllers/Manager.antt =====
-- src/recordings/recordings-manager.controller.ts: the handlers that delete recordings, with the guard
-- in front of them, and what a request to delete files can reach.
use reolink_station.Prelude.{
  ℕ, String, Bool, true, Option, some, List, [], ◌∷◌, In, ◌≡◌, ◌⊎◌, inl, inr, refl, sym, ap, ◌∙◌,
  subst, Bool-cases, join_text,
}
use reolink_station.Database.{Database, Tables}
use reolink_station.Http.{HttpException, Result, ok, err, Result-cases}
use reolink_station.Crypto.{NodeCrypto}
use reolink_station.Sharing.{AccessLevel, owner_level, manage_level, access, can_activate}
use reolink_station.Sharing.Entitled.{Entitled, access_sound}
use reolink_station.Sharing.Guard.{admit_manage}
use reolink_station.CameraProfiles.{Connection, find_one_decrypted}
use reolink_station.Recordings.PathSafety.{PosixPath}
use reolink_station.Recordings.PathSafety.Place.{place, starts_slash, ends_slash, IsUnder, slash}
use reolink_station.Recordings.PathSafety.Walk.{place-AllNames}
use reolink_station.Recordings.PathSafety.Render.{place-rendered}
use reolink_station.Recordings.PathSafety.Confined.{resolve_safe_iff}
use reolink_station.Recordings.Service
use reolink_station.Recordings.Remote.{Config, Sftp, SftpCall, deleted, State}
use reolink_station.Recordings.Service.{
  conn, resolve, resolve_all, with_connection, call_delete, delete_loop, delete_files,
}

module _ {S Bytes : Type 0} (path : PosixPath) (sftp : Sftp S) (db : Database)
    (node : NodeCrypto Bytes) (key : Bytes) where
  -- the profiles service, on the tables
  abbrev pub profiles_of : Tables → String → Result (Option Connection)
  profiles_of t id = find_one_decrypted node key db id t

  unfoldable pub remove : String → String → List String → Tables → State S → Result ℕ × State S
  remove user_id id paths t st = elim (can_activate db true user_id id t) [
    | err e ↦ (err e, st)
    | ok level ↦ delete_files path sftp (profiles_of t) id paths st
  ]

  unfoldable pub prune :
      ℕ → ℕ → String → String → ℕ → Tables → State S → Option (Result ℕ × State S)
  prune fuel now user_id id older_than_days t st = elim (can_activate db true user_id id t) [
    | err e ↦ some (err e, st)
    | ok level ↦ Service.prune path sftp (profiles_of t) fuel now older_than_days id st
  ]

module _ {S : Type 0} (path : PosixPath) (sftp : Sftp S)
    (profiles : String → Result (Option Connection)) where
  -- A call of the server deletes one of the paths.
  abbrev Deletes : List String → SftpCall → Type 0
  Deletes ps e = (p : String) × (done : Bool) × (e ≡ deleted p done) × In p ps

  delete_loop-Deletes :
      (cfg : Config) (ps : List String) (n : ℕ) (st : State S) (e : SftpCall)
      → In e (delete_loop path sftp profiles cfg ps n st).1.calls
      → In e st.calls ⊎ Deletes ps e
  unfolding delete_loop call_delete
  delete_loop-Deletes cfg [] n st e m = inl m
  delete_loop-Deletes cfg (p ∷ ps) n st e m =
      elim (delete_loop-Deletes cfg ps _ (call_delete path sftp profiles cfg p st).1 e m) [
        | inl (inl same) ↦ inr (p, (call_delete path sftp profiles cfg p st).0, same, inl refl)
        | inl (inr old) ↦ inl old
        | inr (q, done, same, k) ↦ inr (q, done, same, inr k)
      ]

  resolve_all-In :
      (base : Option String) (rels abses : List String) (p : String)
      → resolve_all path sftp profiles base rels ≡ ok abses
      → In p abses
      → (rel : String) × In rel rels × (resolve path sftp profiles base rel ≡ ok p)
  unfolding resolve_all
  resolve_all-In base [] abses p e m = absurd (subst (In p) (sym (nothing e)) m)
    where
      nothing : ok [] ≡ ok abses → [] ≡ abses
      nothing f = cc f
  resolve_all-In base (r ∷ rels) abses p e m =
      elim (Result-cases (resolve path sftp profiles base r)) [
        | inl (x, f) ↦ cc (rw (f, resolve_all) at e)
        | inr (abs, f) ↦ elim (Result-cases (resolve_all path sftp profiles base rels)) [
          | inl (x, g) ↦ cc (rw (f, g, resolve_all) at e)
          | inr (rest, g) ↦
              let same : abs ∷ rest ≡ abses = cc (rw (f, g, resolve_all) at e) in
              elim (subst (In p) (sym same) m) [
                | inl here ↦ (r, inl refl, f ∙ ap ok (sym here))
                | inr there ↦
                    let (rel, k, q) = resolve_all-In base rels rest p g there in (rel, inr k, q)
              ]
        ]
      ]

  with_connection-Deletes :
      (cfg : Config) (ps : List String) (st : State S) (e : SftpCall)
      → In e
          (with_connection path sftp profiles cfg
            (delete_loop path sftp profiles cfg ps 0)
            st).1.calls
      → In e st.calls ⊎ Deletes ps e
  unfolding with_connection
  with_connection-Deletes cfg ps st e m = elim (Bool-cases (sftp.acquire cfg st.remote).0) [
    | inl got ↦
        delete_loop-Deletes cfg ps 0 (record st { remote = (sftp.acquire cfg st.remote).1 }) e
          (rw got at m)
    | inr not_got ↦ inl (rw not_got at m)
  ]

  delete_files-Deletes :
      (id : String) (cfg : Config) (base : Option String) (rels : List String) (st : State S)
      (e : SftpCall)
      → conn path sftp profiles id ≡ ok (cfg, base)
      → In e (delete_files path sftp profiles id rels st).1.calls
      → In e st.calls
        ⊎ ((p : String) × (done : Bool) × (e ≡ deleted p done)
            × ((rel : String) × In rel rels × (resolve path sftp profiles base rel ≡ ok p)))
  unfolding delete_files
  delete_files-Deletes id cfg base rels st e there m =
      elim (Result-cases (resolve_all path sftp profiles base rels)) [
        | inl (x, f) ↦ inl (rw (there, f) at m)
        | inr (abses, f) ↦ elim (with_connection-Deletes cfg abses st e (rw (there, f) at m)) [
          | inl old ↦ inl old
          | inr (p, done, same, k) ↦ inr (p, done, same, resolve_all-In base rels abses p f k)
        ]
      ]

  -- a path that is resolved in an absolute base directory names a place below it
  resolve-IsUnder :
      (base rel p : String)
      → starts_slash base ≡ true
      → resolve path sftp profiles (some base) rel ≡ ok p
      → IsUnder (place base) (place p)
  unfolding resolve
  resolve-IsUnder base rel p h e =
      let (relative, under, same) = (resolve_safe_iff path base rel p h).0 e in
      let joined = join_text base (String.◌∷◌ slash rel) in
      subst (IsUnder (place base))
        (sym
          (ap place same ∙ place-rendered (place joined) (ends_slash rel) (place-AllNames joined)))
        under

module _ {S Bytes : Type 0} (path : PosixPath) (sftp : Sftp S) (db : Database)
    (node : NodeCrypto Bytes) (key : Bytes) where
  abbrev pub MayManage : Tables → String → String → Type 0
  MayManage t user_id id =
      Entitled db t user_id id owner_level ⊎ Entitled db t user_id id manage_level

  passed-MayManage :
      (t : Tables) (user_id id : String) (l : AccessLevel)
      → can_activate db true user_id id t ≡ ok l
      → MayManage t user_id id
  unfolding can_activate
  passed-MayManage t user_id id l e =
      let (found, which) = admit_manage (access db user_id id t) l e in
      elim which [
        | inl f ↦ inl (access_sound db t user_id id owner_level (rw f at found))
        | inr f ↦ inr (access_sound db t user_id id manage_level (rw f at found))
      ]

  remove-err :
      (user_id id : String) (paths : List String) (t : Tables) (st : State S) (x : HttpException)
      → can_activate db true user_id id t ≡ err x
      → remove path sftp db node key user_id id paths t st ≡ (err x, st)
  unfolding remove
  remove-err user_id id paths t st x f = rw (f, remove) refl

  remove-ok :
      (user_id id : String) (paths : List String) (t : Tables) (st : State S) (l : AccessLevel)
      → can_activate db true user_id id t ≡ ok l
      → remove path sftp db node key user_id id paths t st
        ≡ delete_files path sftp (profiles_of path sftp db node key t) id paths st
  unfolding remove
  remove-ok user_id id paths t st l f = rw (f, remove) refl

  -- Where the profile has an absolute base directory, whatever a request to delete files asks of the
  -- server is to delete a place in that directory that one of its paths was resolved to, and the rows
  -- entitle the user to manage the profile.
  pub remove-IsUnder :
      (user_id id : String) (paths : List String) (t : Tables) (st : State S) (cfg : Config)
      (base : String) (e : SftpCall)
      → st.calls ≡ []
      → conn path sftp (profiles_of path sftp db node key t) id ≡ ok (cfg, some base)
      → starts_slash base ≡ true
      → In e (remove path sftp db node key user_id id paths t st).1.calls
      → MayManage t user_id id
        × ((p : String) × (done : Bool) × (e ≡ deleted p done)
            × IsUnder (place base) (place p)
            × ((rel : String) × In rel paths
                × (resolve path sftp (profiles_of path sftp db node key t) (some base) rel ≡ ok p)))
  remove-IsUnder user_id id paths t st cfg base e none_yet there h m =
      elim (Result-cases (can_activate db true user_id id t)) [
        | inl (x, f) ↦
            absurd (subst (In e) none_yet (rw (remove-err user_id id paths t st x f) at m))
        | inr (l, f) ↦
            let profiles = profiles_of path sftp db node key t in
            elim (delete_files-Deletes path sftp profiles id cfg (some base) paths st e there
              (rw (remove-ok user_id id paths t st l f) at m)) [
                | inl old ↦ absurd (subst (In e) none_yet old)
                | inr (p, done, same, (rel, k, r)) ↦ (
                  passed-MayManage t user_id id l f,
                  (p, done, same, resolve-IsUnder path sftp profiles base rel p h r, (rel, k, r)),
                )
              ]
      ]
