-- ===== src/Controllers.antt =====
-- src/camera-profiles/camera-profiles.controller.ts and src/sharing/sharing.controller.ts: the
-- handlers with the guard in front of them. The id of the user is what the guard of the token left.
-- `ParseUUIDPipe` is a parameter, a test.
pub mod Shut
pub mod Outsider
pub mod Listing
pub mod Manager
use reolink_station.Prelude.{
  ℕ, String, Bool, true, false, Option, none, some, List, [], ◌∷◌, if◌then◌else◌,
}
use reolink_station.Entities.{SharePermission, CameraShareEntity, CameraProfileEntity}
use reolink_station.Database.{Database, Tables}
use reolink_station.Http.{
  HttpException, Result, ok, err, not_found, bad_request, unauthorized, forbidden, conflict,
  service_unavailable, internal_error,
}
use reolink_station.Crypto.{NodeCrypto}
use reolink_station.Sharing
use reolink_station.Sharing.{AccessLevel, accessible_profile_ids, can_activate}
use reolink_station.CameraProfiles
use reolink_station.CameraProfiles.{Masked, CreateDto, UpdateDto, get_masked}

-- `@UseGuards(CameraAccessGuard)`: the handler runs if the guard lets it.
abbrev pub behind :
    {A : Type 0} → Result AccessLevel → (Tables → Result A × Tables) → Tables → Result A × Tables
behind (err e) handler t = (err e, t)
behind (ok level) handler t = handler t

-- the body of the loop of `list`: a profile that is not found is skipped
unfoldable pub push_masked : Result Masked → Result (List Masked) → Result (List Masked)
push_masked (err not_found) rest = rest
push_masked (err bad_request) rest = err bad_request
push_masked (err unauthorized) rest = err unauthorized
push_masked (err forbidden) rest = err forbidden
push_masked (err conflict) rest = err conflict
push_masked (err service_unavailable) rest = err service_unavailable
push_masked (err internal_error) rest = err internal_error
push_masked (ok m) (err e) = err e
push_masked (ok m) (ok out) = ok (m ∷ out)

module _ (db : Database) where
  abbrev pub guarded :
      {A : Type 0}
      → Bool
      → String
      → String
      → (Tables → Result A × Tables)
      → Tables
      → Result A × Tables
  guarded needs_manage user_id id handler t =
      behind (can_activate db needs_manage user_id id t) handler t

  unfoldable pub list_loop : List String → Tables → Result (List Masked)
  unfolding push_masked
  list_loop [] t = ok []
  list_loop (id ∷ ids) t = push_masked (get_masked db id t) (list_loop ids t)

  unfoldable pub list : String → Tables → Result (List Masked)
  unfolding list_loop
  list user_id t = list_loop (accessible_profile_ids db user_id t) t

  abbrev pub get : String → String → Tables → Result Masked × Tables
  get user_id id = guarded false user_id id (λ t. (get_masked db id t, t))

  abbrev pub remove : String → String → Tables → Result (Unit {0}) × Tables
  remove user_id id = guarded true user_id id (λ t. (ok tt, CameraProfiles.remove db id t))

  abbrev pub grant :
      String → String → String → SharePermission → Tables → Result CameraShareEntity × Tables
  grant user_id id email permission = guarded true user_id id (Sharing.grant db id email permission)

  abbrev pub revoke :
      (String → Bool) → String → String → String → Tables → Result (Unit {0}) × Tables
  revoke parse user_id id grantee_id = guarded true user_id id (λ t.
      if parse grantee_id then (ok tt, Sharing.revoke db id grantee_id t) else (err bad_request, t))

  module _ {Bytes : Type 0} (node : NodeCrypto Bytes) (key : Bytes) where
    unfoldable pub create : Bytes → Bytes → String → ℕ → CreateDto → Tables → Result Masked × Tables
    create iv iv' user_id now dto t =
        let (p, t') = CameraProfiles.create node key db iv iv' user_id now dto t in
        (get_masked db p.id t', t')

    abbrev pub update :
        Bytes → Bytes → String → String → UpdateDto → Tables → Result Masked × Tables
    update iv iv' user_id id dto =
        guarded true user_id id (CameraProfiles.update node key db iv iv' id dto)

-- What a user may send to these controllers, with the vectors and the time that a handler takes.
pub data Request (Bytes : Type 0) : Type 0 where
  create_profile : Bytes → Bytes → ℕ → CreateDto → Request Bytes
  list_profiles : Request Bytes
  get_profile : String → Request Bytes
  update_profile : Bytes → Bytes → String → UpdateDto → Request Bytes
  remove_profile : String → Request Bytes
  grant_share : String → String → SharePermission → Request Bytes
  revoke_share : String → String → Request Bytes

module _ {Bytes : Type 0} (db : Database) (node : NodeCrypto Bytes) (key : Bytes)
    (parse : String → Bool) where
  -- the tables behind a request of the user
  unfoldable pub serve : String → Request Bytes → Tables → Tables
  unfolding create
  serve user_id (create_profile iv iv' now dto) t = (create db node key iv iv' user_id now dto t).1
  serve user_id list_profiles t = t
  serve user_id (get_profile id) t = (get db user_id id t).1
  serve user_id (update_profile iv iv' id dto) t = (update db node key iv iv' user_id id dto t).1
  serve user_id (remove_profile id) t = (remove db user_id id t).1
  serve user_id (grant_share id email permission) t = (grant db user_id id email permission t).1
  serve user_id (revoke_share id grantee_id) t = (revoke db parse user_id id grantee_id t).1

  unfoldable pub serve_all : String → List (Request Bytes) → Tables → Tables
  unfolding serve
  serve_all user_id [] t = t
  serve_all user_id (r ∷ rs) t = serve_all user_id rs (serve user_id r t)
