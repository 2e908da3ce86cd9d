-- ===== src/Sharing/Entitled.antt =====
-- What `access` means, stated by the rows alone, for tables that meet their unique constraints.
use reolink_station.Prelude.{
  String, true, some, In, ◌≡◌, ◌≢◌, ◌↔◌, inl, inr, Bool-cases, Option-cases, arith, both_true,
  same_text, eq_iff,
}
use reolink_station.Tables.Lookup.{find_one_unique}
use reolink_station.Entities.{CameraShareEntity, CameraProfileEntity}
use reolink_station.Database.{Database, Tables}
use reolink_station.Sharing.{AccessLevel, owner_level, level_of, of_pair, profile_level, access}
use reolink_station.Sharing.Uuid.{is_uuid}

module _ (db : Database) where
  -- The primary keys of the profiles and the shares, and `@Unique(['cameraProfileId', 'granteeId'])`.
  pub record WellFormed (t : Tables) : Type 0 where
    pub profile_key :
        (p q : CameraProfileEntity)
        → In p t.profiles
        → In q t.profiles
        → db.uuid.same p.id q.id ≡ true
        → p ≡ q
    pub share_key : (s r : CameraShareEntity) → In s t.shares → In r t.shares → s.id ≡ r.id → s ≡ r
    pub share_pair :
        (s r : CameraShareEntity)
        → In s t.shares
        → In r t.shares
        → db.uuid.same s.camera_profile_id r.camera_profile_id ≡ true
        → db.uuid.same s.grantee_id r.grantee_id ≡ true
        → s ≡ r

  -- The owner of a profile is entitled as its owner, and any other user by a share.
  pub data Entitled (t : Tables) (user_id profile_id : String) (l : AccessLevel) : Type 0 where
    by_ownership :
        (p : CameraProfileEntity)
        → In p t.profiles
        → db.uuid.same p.id profile_id ≡ true
        → p.owner_id ≡ user_id
        → l ≡ owner_level
        → Entitled t user_id profile_id l
    by_share :
        (p : CameraProfileEntity)
        → In p t.profiles
        → db.uuid.same p.id profile_id ≡ true
        → p.owner_id ≢ user_id
        → (s : CameraShareEntity) → In s t.shares
        → db.uuid.same s.camera_profile_id profile_id ≡ true
        → db.uuid.same s.grantee_id user_id ≡ true
        → l ≡ level_of s.permission
        → Entitled t user_id profile_id l

  -- Two texts that name one uuid name each other.
  pub same_join :
      (a b c : String) → db.uuid.same a c ≡ true → db.uuid.same b c ≡ true → db.uuid.same a b ≡ true
  same_join a b c h k = db.uuid.same_trans a c b h (db.uuid.same_sym b c k)

  pub profile_level_sound :
      (t : Tables) (user_id profile_id : String) (l : AccessLevel) (p : CameraProfileEntity)
      → In p t.profiles
      → db.uuid.same p.id profile_id ≡ true
      → profile_level db user_id profile_id t (some p) ≡ some l
      → Entitled t user_id profile_id l
  unfolding profile_level
  profile_level_sound t user_id profile_id l p m h e =
      elim (Bool-cases (same_text p.owner_id user_id)) [
        | inl own ↦ by_ownership p m h ((eq_iff _ _).0 own) (ground arith)
        | inr other ↦
            elim (Option-cases (db.shares.find_one (of_pair db profile_id user_id) t.shares)) [
              | inl missed ↦ ground arith
              | inr (s, found) ↦
                  let hit = db.shares.find_one_hit _ _ _ found in
                  let parts = both_true _ _ hit.1 in
                  by_share p m h (λ same. cc (other, (eq_iff p.owner_id user_id).1 same)) s hit.0
                    parts.0 parts.1 (ground arith)
            ]
      ]

  -- the share that a user's level comes from is the only one of the pair
  pub pair_single :
      (t : Tables) (profile_id user_id : String)
      → WellFormed t
      → (s r : CameraShareEntity) → In s t.shares
      → In r t.shares
      → of_pair db profile_id user_id s ≡ true
      → of_pair db profile_id user_id r ≡ true
      → s ≡ r
  pair_single t profile_id user_id w s r ms mr hs hr =
      let a = both_true _ _ hs in
      let b = both_true _ _ hr in
      w.share_pair s r ms mr (same_join _ _ _ a.0 b.0) (same_join _ _ _ a.1 b.1)

  pub id_single :
      (t : Tables) (profile_id : String)
      → WellFormed t
      → (p q : CameraProfileEntity) → In p t.profiles
      → In q t.profiles
      → db.uuid.same p.id profile_id ≡ true
      → db.uuid.same q.id profile_id ≡ true
      → p ≡ q
  id_single t profile_id w p q mp mq hp hq = w.profile_key p q mp mq (same_join _ _ _ hp hq)

  pub profile_found :
      (t : Tables) (profile_id : String) (p : CameraProfileEntity)
      → WellFormed t
      → In p t.profiles
      → db.uuid.same p.id profile_id ≡ true
      → db.profiles.find_one (λ q. db.uuid.same q.id profile_id) t.profiles ≡ some p
  profile_found t profile_id p w m h =
      find_one_unique db.profiles _ t.profiles p m h
        (λ x mx hx. id_single t profile_id w x p mx m hx h)

  pub share_found :
      (t : Tables) (profile_id user_id : String) (s : CameraShareEntity)
      → WellFormed t
      → In s t.shares
      → db.uuid.same s.camera_profile_id profile_id ≡ true
      → db.uuid.same s.grantee_id user_id ≡ true
      → db.shares.find_one (of_pair db profile_id user_id) t.shares ≡ some s
  share_found t profile_id user_id s w m h k =
      let both : of_pair db profile_id user_id s ≡ true = ground arith in
      find_one_unique db.shares _ t.shares s m both
        (λ x mx hx. pair_single t profile_id user_id w x s mx m hx both)

  pub access_complete :
      (t : Tables) (user_id profile_id : String) (l : AccessLevel)
      → WellFormed t
      → is_uuid profile_id ≡ true
      → Entitled t user_id profile_id l
      → access db user_id profile_id t ≡ some l
  unfolding access
  access_complete t user_id profile_id l w u (by_ownership p m h own e) =
      ground (arith, profile_found t profile_id p w m h, (eq_iff p.owner_id user_id).1 own)
  access_complete t user_id profile_id l w u (by_share p m h other s ms hp hg e) = ground (
    arith,
    profile_found t profile_id p w m h,
    eq_iff p.owner_id user_id,
    share_found t profile_id user_id s w ms hp hg,
  )

  pub access_sound :
      (t : Tables) (user_id profile_id : String) (l : AccessLevel)
      → access db user_id profile_id t ≡ some l
      → Entitled t user_id profile_id l
  unfolding access
  access_sound t user_id profile_id l e = elim (Bool-cases (is_uuid profile_id)) [
    | inr bad ↦ ground arith
    | inl good ↦
        elim (Option-cases (db.profiles.find_one (λ p. db.uuid.same p.id profile_id) t.profiles)) [
          | inl missed ↦ ground arith
          | inr (p, found) ↦
              let hit = db.profiles.find_one_hit _ _ _ found in
              profile_level_sound t user_id profile_id l p hit.0 hit.1 (rw (good, found) at e)
        ]
  ]

  -- For a profile id that is a uuid, over tables that meet their unique constraints, `access`
  -- returns a level exactly when the rows entitle the user to that level: the owner of the profile
  -- as its owner, any other user by a share of the profile with them.
  pub access_iff :
      (t : Tables) (user_id profile_id : String) (l : AccessLevel)
      → WellFormed t
      → is_uuid profile_id ≡ true
      → (access db user_id profile_id t ≡ some l) ↔ Entitled t user_id profile_id l
  access_iff t user_id profile_id l w u =
      (access_sound t user_id profile_id l, access_complete t user_id profile_id l w u)
