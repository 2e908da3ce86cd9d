-- ===== src/Controllers/Outsider.antt =====
-- What a user can do who has no level on a profile.
use reolink_station.Prelude.{
  ℕ, String, Bool, true, false, none, List, [], ◌∷◌, In, ◌≡◌, inl, inr, refl, Bool-cases,
  Option-cases,
}
use reolink_station.Entities.{CameraProfileEntity}
use reolink_station.Database.{Database, Tables}
use reolink_station.Crypto.{NodeCrypto}
use reolink_station.Sharing
use reolink_station.Sharing.{
  AccessLevel, owner_level, manage_level, view_level, level_of, access, admit, can_activate,
  find_by_email, granted_row, grant_to, of_pair,
}
use reolink_station.Sharing.Entitled.{Entitled, by_ownership, by_share, access_sound}
use reolink_station.CameraProfiles
use reolink_station.CameraProfiles.{load, updated, update_loaded, created, CreateDto, UpdateDto}
use reolink_station.Controllers
use reolink_station.Controllers.{
  guarded, Request, create_profile, list_profiles, get_profile, update_profile, remove_profile,
  grant_share, revoke_share, serve, serve_all,
}
use reolink_station.Controllers.Shut.{
  IsShut, guarded-IsShut, fewer_shares, saved_profile, removed, granted, updated_profile,
}

module _ {Bytes : Type 0} (db : Database) (node : NodeCrypto Bytes) (key : Bytes)
    (parse : String → Bool) where
  -- A generated id names no row of the table.
  abbrev pub FreshIds : Type 0
  FreshIds =
      (t : List CameraProfileEntity) (q : CameraProfileEntity)
      → In q t
      → db.uuid.same (db.profiles.new_key t) q.id ≡ false

  module _ (user_id : String) (p : CameraProfileEntity) where
    created_profile :
        (t : Tables) (iv iv' : Bytes) (now : ℕ) (dto : CreateDto)
        → FreshIds
        → IsShut db node key parse user_id p t
        → IsShut db node key parse user_id p
            (CameraProfiles.create node key db iv iv' user_id now dto t).1
    unfolding CameraProfiles.create created
    created_profile t iv iv' now dto fresh shut =
        saved_profile db node key parse user_id p t _ shut (fresh t.profiles p shut.held)

    serve-IsShut :
        (r : Request Bytes) (t : Tables)
        → FreshIds
        → IsShut db node key parse user_id p t
        → IsShut db node key parse user_id p (serve db node key parse user_id r t)
    unfolding serve Controllers.create
    serve-IsShut (create_profile iv iv' now dto) t fresh shut =
        created_profile t iv iv' now dto fresh shut
    serve-IsShut list_profiles t fresh shut = shut
    serve-IsShut (get_profile id) t fresh shut =
        guarded-IsShut db node key parse user_id p t false id _ shut (λ apart. shut)
    serve-IsShut (update_profile iv iv' id dto) t fresh shut =
        guarded-IsShut db node key parse user_id p t true id _ shut
          (updated_profile db node key parse user_id p t iv iv' id dto shut)
    serve-IsShut (remove_profile id) t fresh shut =
        guarded-IsShut db node key parse user_id p t true id _ shut
          (removed db node key parse user_id p t id shut)
    serve-IsShut (grant_share id email permission) t fresh shut =
        guarded-IsShut db node key parse user_id p t true id _ shut
          (granted db node key parse user_id p t id email permission shut)
    serve-IsShut (revoke_share id grantee_id) t fresh shut =
        guarded-IsShut db node key parse user_id p t true id _ shut (λ apart.
          elim (Bool-cases (parse grantee_id)) [
            | inl e ↦
                rw e (unfold Sharing.revoke in fewer_shares db node key parse user_id p t _ shut)
            | inr e ↦ rw e shut
          ])

    serve_all-IsShut :
        (rs : List (Request Bytes)) (t : Tables)
        → FreshIds
        → IsShut db node key parse user_id p t
        → IsShut db node key parse user_id p (serve_all db node key parse user_id rs t)
    unfolding serve_all
    serve_all-IsShut [] t fresh shut = shut
    serve_all-IsShut (r ∷ rs) t fresh shut =
        serve_all-IsShut rs (serve db node key parse user_id r t) fresh
          (serve-IsShut r t fresh shut)

    outsider-IsShut :
        (t : Tables)
        → In p t.profiles
        → ((l : AccessLevel) → ¬ Entitled db t user_id p.id l)
        → IsShut db node key parse user_id p t
    outsider-IsShut t m none_entitled =
        let foreign =
          λ (q : CameraProfileEntity) (mq : In q t.profiles) (h : db.uuid.same q.id p.id ≡ true)
              (own : q.owner_id ≡ user_id).
            none_entitled owner_level (by_ownership q mq h own refl) in
        record {
          held = m;
          not_owned = foreign;
          not_shared = λ s ms h. elim (Bool-cases (db.uuid.same s.grantee_id user_id)) [
            | inr other ↦ other
            | inl hg ↦
                let self = db.uuid.same_self p.id in
                absurd (
                  none_entitled (level_of s.permission)
                    (by_share p m self (foreign p m self) s ms h hg refl))
          ];
        }

    shut-access :
        (t : Tables) → IsShut db node key parse user_id p t → access db user_id p.id t ≡ none
    shut-access t shut = elim (Option-cases (access db user_id p.id t)) [
      | inl e ↦ e
      | inr (l, e) ↦ elim (access_sound db t user_id p.id l e) [
        | by_ownership q m hq own r ↦ absurd (shut.not_owned q m hq own)
        | by_share q m hq other s ms hp hg r ↦ cc (shut.not_shared s ms hp, hg)
      ]
    ]

  -- Where generated ids are new, a user whom no row entitles to a profile that is there gets no level
  -- on it by any sequence of requests of their own, and its row stays in the table as it was.
  pub serve_all-outsider :
      (user_id : String) (p : CameraProfileEntity) (rs : List (Request Bytes)) (t : Tables)
      → FreshIds
      → In p t.profiles
      → ((l : AccessLevel) → ¬ Entitled db t user_id p.id l)
      → (access db user_id p.id (serve_all db node key parse user_id rs t) ≡ none)
        × In p (serve_all db node key parse user_id rs t).profiles
  serve_all-outsider user_id p rs t fresh m outside =
      let shut = serve_all-IsShut user_id p rs t fresh (outsider-IsShut user_id p t m outside) in
      (shut-access user_id p (serve_all db node key parse user_id rs t) shut, shut.held)
