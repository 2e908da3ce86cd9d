-- ===== src/Controllers/Shut.antt =====
-- A profile that a user has no level on, and what keeps it so.
use reolink_station.Prelude.{
  String, Bool, true, false, Option, none, some, In, ◌≡◌, ◌≢◌, inl, inr, refl, ap, Bool-cases,
  Option-cases, both_true,
}
use reolink_station.Entities.{SharePermission, CameraShareEntity, CameraProfileEntity}
use reolink_station.Database.{Database, Tables}
use reolink_station.Http.{Result, ok, Result-cases}
use reolink_station.Crypto.{NodeCrypto}
use reolink_station.Sharing
use reolink_station.Sharing.{
  AccessLevel, owner_level, manage_level, view_level, level_of, access, admit, can_activate,
  find_by_email, granted_row, grant_to, of_pair,
}
use reolink_station.Sharing.Entitled.{by_ownership, by_share, access_sound}
use reolink_station.CameraProfiles
use reolink_station.CameraProfiles.{load, updated, update_loaded, created, CreateDto, UpdateDto}
use reolink_station.Controllers.{guarded}

pub admit-some :
    (needs_manage : Bool) (o : Option AccessLevel) (l : AccessLevel)
    → admit needs_manage o ≡ ok l
    → o ≡ some l
unfolding admit
admit-some n none l e = cc e
admit-some true (some owner_level) l e = cc e
admit-some false (some owner_level) l e = cc e
admit-some true (some manage_level) l e = cc e
admit-some false (some manage_level) l e = cc e
admit-some true (some view_level) l e = cc e
admit-some false (some view_level) l e = cc e

module _ {Bytes : Type 0} (db : Database) (node : NodeCrypto Bytes) (key : Bytes)
    (parse : String → Bool) where
  module _ (user_id : String) (p : CameraProfileEntity) where
    -- The profile is there, and no row entitles the user to it.
    pub record IsShut (t : Tables) : Type 0 where
      pub held : In p t.profiles
      pub not_owned :
          (q : CameraProfileEntity)
          → In q t.profiles
          → db.uuid.same q.id p.id ≡ true
          → q.owner_id ≢ user_id
      pub not_shared :
          (s : CameraShareEntity)
          → In s t.shares
          → db.uuid.same s.camera_profile_id p.id ≡ true
          → db.uuid.same s.grantee_id user_id ≡ false

    -- the guard lets the user to other profiles only
    pub passed-apart :
        (t : Tables) (needs_manage : Bool) (id : String) (l : AccessLevel)
        → IsShut t
        → can_activate db needs_manage user_id id t ≡ ok l
        → db.uuid.same id p.id ≡ false
    unfolding can_activate
    passed-apart t n id l shut e = elim (Bool-cases (db.uuid.same id p.id)) [
      | inr apart ↦ apart
      | inl h ↦ elim (access_sound db t user_id id l (admit-some n (access db user_id id t) l e)) [
        | by_ownership q m hq own r ↦
            absurd (shut.not_owned q m (db.uuid.same_trans _ _ _ hq h) own)
        | by_share q m hq other s ms hp hg r ↦
            cc (shut.not_shared s ms (db.uuid.same_trans _ _ _ hp h), hg)
      ]
    ]

    pub guarded-IsShut :
        {A : Type 0} (t : Tables) (needs_manage : Bool) (id : String)
        (handler : Tables → Result A × Tables)
        → IsShut t
        → (db.uuid.same id p.id ≡ false → IsShut (handler t).1)
        → IsShut (guarded db needs_manage user_id id handler t).1
    guarded-IsShut t n id handler shut h = elim (Result-cases (can_activate db n user_id id t)) [
      | inl (x, e) ↦ rw e shut
      | inr (l, e) ↦ rw e (h (passed-apart t n id l shut e))
    ]

    -- a row of another id is not the profile's
    pub other_id :
        (id : String) (q : CameraProfileEntity)
        → db.uuid.same id p.id ≡ false
        → db.uuid.same q.id id ≡ true
        → db.uuid.same q.id p.id ≡ false
    other_id id q apart h = elim (Bool-cases (db.uuid.same q.id p.id)) [
      | inr e ↦ e
      | inl e ↦ cc (apart, db.uuid.same_trans _ _ _ (db.uuid.same_sym _ _ h) e)
    ]

    pub fewer_shares :
        (t : Tables) (f : CameraShareEntity → Bool)
        → IsShut t
        → IsShut (record t { shares = db.shares.delete f t.shares })
    fewer_shares t f shut = record {
      held = shut.held;
      not_owned = shut.not_owned;
      not_shared = λ s m. shut.not_shared s ((db.shares.in_delete f t.shares s).0 m).0;
    }

    pub saved_share :
        (t : Tables) (x : CameraShareEntity)
        → IsShut t
        → db.uuid.same x.camera_profile_id p.id ≡ false
        → IsShut (record t { shares = db.shares.save x t.shares })
    saved_share t x shut apart = record {
      held = shut.held;
      not_owned = shut.not_owned;
      not_shared = λ s m h. elim ((db.shares.in_save x t.shares s).0 m) [
        | inl e ↦
            cc (apart, h, ap (λ (y : CameraShareEntity). db.uuid.same y.camera_profile_id p.id) e)
        | inr (n, ne) ↦ shut.not_shared s n h
      ];
    }

    -- a profile of another id is saved
    pub saved_profile :
        (t : Tables) (x : CameraProfileEntity)
        → IsShut t
        → db.uuid.same x.id p.id ≡ false
        → IsShut (record t { profiles = db.profiles.save x t.profiles })
    saved_profile t x shut apart = record {
      held = (db.profiles.in_save x t.profiles p).1 (
          inr
            (shut.held, λ e. cc (apart, db.uuid.same_self p.id, ap (λ i. db.uuid.same i p.id) e)));
      not_owned = λ q m h. elim ((db.profiles.in_save x t.profiles q).0 m) [
        | inl e ↦ cc (apart, h, ap (λ (y : CameraProfileEntity). db.uuid.same y.id p.id) e)
        | inr (n, ne) ↦ shut.not_owned q n h
      ];
      not_shared = shut.not_shared;
    }

    pub removed :
        (t : Tables) (id : String)
        → IsShut t
        → db.uuid.same id p.id ≡ false
        → IsShut (CameraProfiles.remove db id t)
    unfolding CameraProfiles.remove Sharing.revoke_all_for_profile
    removed t id shut apart = record {
      held = (db.profiles.in_delete _ t.profiles p).1 (shut.held, backwards);
      not_owned = λ q m. shut.not_owned q ((db.profiles.in_delete _ t.profiles q).0 m).0;
      not_shared = λ s m. shut.not_shared s ((db.shares.in_delete _ t.shares s).0 m).0;
    }
      where
        backwards : db.uuid.same p.id id ≡ false
        backwards = elim (Bool-cases (db.uuid.same p.id id)) [
          | inr e ↦ e
          | inl e ↦ cc (apart, db.uuid.same_sym p.id id e)
        ]

    pub row-apart :
        (t : Tables) (id grantee_id : String) (permission : SharePermission)
        (o : Option CameraShareEntity)
        → db.shares.find_one (of_pair db id grantee_id) t.shares ≡ o
        → db.uuid.same id p.id ≡ false
        → db.uuid.same (granted_row db id grantee_id permission t o).camera_profile_id p.id ≡ false
    unfolding granted_row
    row-apart t id gid permission none e apart = apart
    row-apart t id gid permission (some x) e apart =
        let hit : db.uuid.same x.camera_profile_id id ≡ true =
          (both_true _ _ (db.shares.find_one_hit _ _ x e).1).0 in
        elim (Bool-cases (db.uuid.same x.camera_profile_id p.id)) [
          | inr other ↦ other
          | inl h ↦
              let back = db.uuid.same_sym x.camera_profile_id id hit in
              cc (apart, db.uuid.same_trans id x.camera_profile_id p.id back h)
        ]

    pub granted :
        (t : Tables) (id email : String) (permission : SharePermission)
        → IsShut t
        → db.uuid.same id p.id ≡ false
        → IsShut (Sharing.grant db id email permission t).1
    unfolding Sharing.grant grant_to
    granted t id email permission shut apart = elim (Option-cases (find_by_email db email t)) [
      | inl unknown ↦ rw unknown shut
      | inr (g, found) ↦
          rw found (saved_share t _ shut (row-apart t id g.id permission _ refl apart))
    ]

    pub updated_profile :
        (t : Tables) (iv iv' : Bytes) (id : String) (dto : UpdateDto)
        → IsShut t
        → db.uuid.same id p.id ≡ false
        → IsShut (CameraProfiles.update node key db iv iv' id dto t).1
    unfolding CameraProfiles.update update_loaded updated load
    updated_profile t iv iv' id dto shut apart = elim (Option-cases (load db id t)) [
      | inl missing ↦ rw missing shut
      | inr (q, found) ↦
          let hit = db.profiles.find_one_hit _ _ q found in
          rw found
            (saved_profile t (updated node key iv iv' dto q) shut (other_id id q apart hit.1))
    ]
