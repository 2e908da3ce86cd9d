-- ===== src/CameraProfiles/Removal.antt =====
-- `remove`: the profile goes, and its shares with it.
use reolink_station.Prelude.{String, none, ◌≡◌, true, false, inl, inr, In, Option-cases, Bool-cases}
use reolink_station.Entities.{CameraShareEntity, CameraProfileEntity}
use reolink_station.Database.{Database, Tables}
use reolink_station.Sharing.{AccessLevel, access, revoke_all_for_profile}
use reolink_station.Sharing.Entitled.{Entitled, by_ownership, by_share, access_sound}
use reolink_station.CameraProfiles.{remove}

module _ (db : Database) where
  -- Every share is of a profile that exists.
  abbrev pub NoOrphans : Tables → Type 0
  NoOrphans t =
      (s : CameraShareEntity)
      → In s t.shares
      → (p : CameraProfileEntity) × In p t.profiles × (db.uuid.same p.id s.camera_profile_id ≡ true)

  -- After its removal no user has a level on a profile, and if every share was of a profile that
  -- exists this still holds.
  pub access-remove :
      (id : String) (t : Tables)
      → ((user_id : String) → access db user_id id (remove db id t) ≡ none)
        × (NoOrphans t → NoOrphans (remove db id t))
  unfolding remove revoke_all_for_profile
  access-remove id t = (
    λ user_id. elim (Option-cases (access db user_id id (remove db id t))) [
      | inl e ↦ e
      | inr (l, e) ↦ absurd (nobody user_id l (access_sound db (remove db id t) user_id id l e))
    ],
    λ whole s m.
        let old = (db.shares.in_delete _ t.shares s).0 m in
        let (p, mp, h) = whole s old.0 in
        (p, (db.profiles.in_delete _ t.profiles p).1 (mp, apart p s h old.1), h),
  )
    where
      gone :
          (p : CameraProfileEntity) → In p (remove db id t).profiles → db.uuid.same p.id id ≡ false
      gone p m = ((db.profiles.in_delete _ t.profiles p).0 m).1

      nobody : (user_id : String) (l : AccessLevel) → ¬ Entitled db (remove db id t) user_id id l
      nobody user_id l (by_ownership p m h own r) = cc (gone p m, h)
      nobody user_id l (by_share p m h other s ms hp hg r) = cc (gone p m, h)

      apart :
          (p : CameraProfileEntity) (s : CameraShareEntity)
          → db.uuid.same p.id s.camera_profile_id ≡ true
          → db.uuid.same s.camera_profile_id id ≡ false
          → db.uuid.same p.id id ≡ false
      apart p s h k = elim (Bool-cases (db.uuid.same p.id id)) [
        | inr e ↦ e
        | inl e ↦
            let back = db.uuid.same_sym p.id s.camera_profile_id h in
            cc (db.uuid.same_trans s.camera_profile_id p.id id back e, k)
      ]
