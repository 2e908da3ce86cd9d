-- ===== src/Sharing/Guard.antt =====
-- `canActivate` of src/sharing/camera-access.guard.ts, and `accessibleProfileIds`.
use reolink_station.Prelude.{
  String, Bool, true, Option, none, some, In, ◌≡◌, ◌↔◌, ◌⊎◌, inl, inr, refl, Bool-cases,
  Option-cases, arith, eq_iff, In-map, of_In-map, In-append_left, In-append_right, of_In-append,
  same_text, map,
}
use reolink_station.Entities.{CameraShareEntity, CameraProfileEntity}
use reolink_station.Database.{Database, Tables}
use reolink_station.Http.{not_found, ok, err}
use reolink_station.Sharing.{
  AccessLevel, owner_level, manage_level, view_level, level_of, access, accessible_profile_ids,
  can_activate, admit,
}
use reolink_station.Sharing.Uuid.{is_uuid}
use reolink_station.Sharing.Entitled.{
  WellFormed, Entitled, by_ownership, by_share, access_sound, access_complete,
}

pub admit_manage :
    (o : Option AccessLevel) (l : AccessLevel)
    → admit true o ≡ ok l
    → (o ≡ some l) × ((l ≡ owner_level) ⊎ (l ≡ manage_level))
unfolding admit
admit_manage none l e = cc
admit_manage (some owner_level) l e = ground arith
admit_manage (some manage_level) l e = ground arith
admit_manage (some view_level) l e = cc

module _ (db : Database) where
  -- A handler that requires `manage` runs exactly for the users whom the rows entitle as the owner
  -- or by a share with `manage`, for a uuid and tables that meet their unique constraints.
  pub can_activate_manage_iff :
      (t : Tables) (user_id profile_id : String)
      → WellFormed db t
      → is_uuid profile_id ≡ true
      → ((l : AccessLevel) × (can_activate db true user_id profile_id t ≡ ok l)) ↔ (
          Entitled db t user_id profile_id owner_level
          ⊎ Entitled db t user_id profile_id manage_level)
  unfolding can_activate
  can_activate_manage_iff t uid pid w u = (
    λ passed.
        let (found, which) = admit_manage (access db uid pid t) passed.0 passed.1 in
        elim which [
          | inl e ↦ inl (access_sound db t uid pid owner_level (rw e at found))
          | inr e ↦ inr (access_sound db t uid pid manage_level (rw e at found))
        ],
    elim [
      | inl h ↦ (owner_level, rw (access_complete db t uid pid owner_level w u h))
      | inr h ↦ (manage_level, rw (access_complete db t uid pid manage_level w u h))
    ],
  )

  -- A user whom no row entitles is told "not found", by every handler, whether the profile is
  -- there or not: the answer does not leak its existence.
  pub can_activate_hidden :
      (t : Tables) (needs_manage : Bool) (user_id profile_id : String)
      → ((l : AccessLevel) → ¬ Entitled db t user_id profile_id l)
      → can_activate db needs_manage user_id profile_id t ≡ err not_found
  unfolding can_activate
  can_activate_hidden t needs uid pid h = elim (Option-cases (access db uid pid t)) [
    | inl e ↦ rw e
    | inr (l, e) ↦ absurd (h l (access_sound db t uid pid l e))
  ]

  -- Every profile on which a user has a level is among the ids listed for the user.
  pub accessible_complete :
      (t : Tables) (user_id profile_id : String) (l : AccessLevel)
      → access db user_id profile_id t ≡ some l
      → (id : String) × In id (accessible_profile_ids db user_id t)
        × (db.uuid.same id profile_id ≡ true)
  unfolding accessible_profile_ids
  accessible_complete t uid pid l e = elim (access_sound db t uid pid l e) [
    | by_ownership p m h own r ↦ (
      p.id,
      In-append_left p.id _ _ (
          In-map (λ (q : CameraProfileEntity). q.id) p _
            ((db.profiles.in_find _ t.profiles p).1 (m, rw own (db.uuid.same_self uid)))),
      h,
    )
    | by_share p m h other s ms hp hg r ↦ (
      s.camera_profile_id,
      In-append_right s.camera_profile_id _ _ (
          In-map (λ (q : CameraShareEntity). q.camera_profile_id) s _
            ((db.shares.in_find _ t.shares s).1 (ms, hg))),
      hp,
    )
  ]

  -- Over tables that meet their unique constraints, every listed id that is a uuid is of a profile on
  -- which the user has a level, where each share is of a profile that exists and the id of the user is
  -- spelled in one way.
  pub accessible_sound :
      (t : Tables) (user_id id : String)
      → WellFormed db t
      → ((s : CameraShareEntity)
          → In s t.shares
          → (p : CameraProfileEntity) × In p t.profiles
            × (db.uuid.same p.id s.camera_profile_id ≡ true))
      → ((p : CameraProfileEntity)
          → In p t.profiles
          → db.uuid.same p.owner_id user_id ≡ true
          → p.owner_id ≡ user_id)
      → is_uuid id ≡ true
      → In id (accessible_profile_ids db user_id t)
      → (l : AccessLevel) × (access db user_id id t ≡ some l)
  unfolding accessible_profile_ids
  accessible_sound t uid id w parent canon u m =
      let owned_ids =
        map (λ (p : CameraProfileEntity). p.id)
          (db.profiles.find (λ p. db.uuid.same p.owner_id uid) t.profiles) in
      let shared_ids =
        map (λ (s : CameraShareEntity). s.camera_profile_id)
          (db.shares.find (λ s. db.uuid.same s.grantee_id uid) t.shares) in
      elim (of_In-append id owned_ids shared_ids m) [
        | inl owned ↦
            let (p, mp, e) =
              of_In-map (λ (q : CameraProfileEntity). q.id) id
                (db.profiles.find (λ x. db.uuid.same x.owner_id uid) t.profiles) owned in
            let (held, own) = (db.profiles.in_find _ t.profiles p).0 mp in
            (
              owner_level,
              access_complete db t uid id owner_level w u
                  (by_ownership p held (rw e (db.uuid.same_self p.id)) (canon p held own) refl),
            )
        | inr shared ↦
            let (s, ms, e) =
              of_In-map (λ (q : CameraShareEntity). q.camera_profile_id) id
                (db.shares.find (λ x. db.uuid.same x.grantee_id uid) t.shares) shared in
            let (held, mine) = (db.shares.in_find _ t.shares s).0 ms in
            let (p, mp, h) = parent s held in
            let hp : db.uuid.same p.id id ≡ true = rw e h in
            elim (Bool-cases (same_text p.owner_id uid)) [
              | inl own ↦ (
                owner_level,
                access_complete db t uid id owner_level w u
                    (by_ownership p mp hp ((eq_iff _ _).0 own) refl),
              )
              | inr other ↦ (
                level_of s.permission,
                access_complete db t uid id (level_of s.permission) w u (
                    by_share p mp hp (λ same. cc (other, (eq_iff p.owner_id uid).1 same)) s held
                      (rw e (db.uuid.same_self s.camera_profile_id)) mine refl),
              )
            ]
      ]
