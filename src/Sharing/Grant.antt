-- ===== src/Sharing/Grant.antt =====
-- `grant`: whose access changes, and how.
use reolink_station.Prelude.{
  String, true, false, Option, none, some, In, ◌≡◌, ◌≢◌, inl, inr, refl, ap, sym, ◌∙◌, Bool-cases,
  Option-cases, arith, both_true,
}
use reolink_station.Tables.Lookup.{find_one_same}
use reolink_station.Entities.{SharePermission, CameraShareEntity, CameraProfileEntity, UserEntity}
use reolink_station.Database.{Database, Tables}
use reolink_station.Sharing.{
  level_of, of_pair, profile_level, access, find_by_email, granted_row, grant_to, grant,
}
use reolink_station.Sharing.Uuid.{is_uuid}
use reolink_station.Sharing.Entitled.{WellFormed, by_share, pair_single, access_iff}

module _ (db : Database) where
  -- the row that `grant` saves: it is the pair's, and it replaces the pair's row if there is one
  record IsGrantRow (t : Tables) (profile_id grantee_id : String) (permission : SharePermission)
      (x : CameraShareEntity) : Type 0 where
    permitted : x.permission ≡ permission
    paired : of_pair db profile_id grantee_id x ≡ true
    alone :
        (r : CameraShareEntity)
        → In r t.shares
        → r.id ≢ x.id
        → of_pair db profile_id grantee_id r ≡ false
    held :
        (r : CameraShareEntity)
        → In r t.shares
        → r.id ≡ x.id
        → of_pair db profile_id grantee_id r ≡ true

  granted_row-IsGrantRow :
      (t : Tables) (profile_id grantee_id : String) (permission : SharePermission)
      → WellFormed db t
      → (o : Option CameraShareEntity)
      → db.shares.find_one (of_pair db profile_id grantee_id) t.shares ≡ o
      → IsGrantRow t profile_id grantee_id permission
          (granted_row db profile_id grantee_id permission t o)
  unfolding granted_row
  granted_row-IsGrantRow t pid gid permission w none e = record {
    permitted = refl;
    paired = ground (arith, db.uuid.same_self pid, db.uuid.same_self gid);
    alone = λ r m h. db.shares.find_one_miss _ _ r e m;
    held = λ r m h. absurd (db.shares.new_key_fresh t.shares r m h);
  }
  granted_row-IsGrantRow t pid gid permission w (some x) e =
      let hit = db.shares.find_one_hit _ _ x e in
      record {
        permitted = refl;
        paired = hit.1;
        alone = λ r m h. elim (Bool-cases (of_pair db pid gid r)) [
          | inl both ↦ absurd (
              h (
                ap (λ (s : CameraShareEntity). s.id)
                  (pair_single db t pid gid w r x m hit.0 both hit.1)))
          | inr other ↦ other
        ];
        held = λ r m h. rw (w.share_key r x m hit.0 h) hit.1;
      }

  -- a row of the same pair as a row that meets the criterion meets it too
  of_pair-same :
      (pid gid : String) (s r : CameraShareEntity)
      → of_pair db pid gid s ≡ true
      → db.uuid.same s.camera_profile_id r.camera_profile_id ≡ true
      → db.uuid.same s.grantee_id r.grantee_id ≡ true
      → of_pair db pid gid r ≡ true
  of_pair-same pid gid s r h a b =
      let c = both_true _ _ h in
      let d = db.uuid.same_trans _ _ _ (db.uuid.same_sym _ _ a) c.0 in
      let f = db.uuid.same_trans _ _ _ (db.uuid.same_sym _ _ b) c.1 in ground arith

  module _ (t : Tables) (pid gid : String) (permission : SharePermission) (x : CameraShareEntity)
      (w : WellFormed db t) (g : IsGrantRow t pid gid permission x) where
    abbrev saved : Tables
    saved = record t { shares = db.shares.save x t.shares }

    saved-WellFormed : WellFormed db saved
    saved-WellFormed = record {
      profile_key = w.profile_key;
      share_key = λ s r ms mr e. elim ((db.shares.in_save x t.shares s).0 ms) [
        | inl sx ↦ elim ((db.shares.in_save x t.shares r).0 mr) [
          | inl rx ↦ sx ∙ sym rx
          | inr (m, ne) ↦ absurd (ne (sym e ∙ ap (λ (c : CameraShareEntity). c.id) sx))
        ]
        | inr (m, ne) ↦ elim ((db.shares.in_save x t.shares r).0 mr) [
          | inl rx ↦ absurd (ne (e ∙ ap (λ (c : CameraShareEntity). c.id) rx))
          | inr (n, ne') ↦ w.share_key s r m n e
        ]
      ];
      share_pair = λ s r ms mr a b. elim ((db.shares.in_save x t.shares s).0 ms) [
        | inl sx ↦ elim ((db.shares.in_save x t.shares r).0 mr) [
          | inl rx ↦ sx ∙ sym rx
          | inr (m, ne) ↦ cc (g.alone r m ne, of_pair-same pid gid s r (rw sx g.paired) a b)
        ]
        | inr (m, ne) ↦ elim ((db.shares.in_save x t.shares r).0 mr) [
          | inl rx ↦ cc (
            g.alone s m ne,
            of_pair-same pid gid r s (rw rx g.paired) (db.uuid.same_sym _ _ a)
                (db.uuid.same_sym _ _ b),
          )
          | inr (n, ne') ↦ w.share_pair s r m n a b
        ]
      ];
    }

    saved-held : In x (saved).shares
    saved-held = (db.shares.in_save x t.shares x).1 (inl refl)

    -- the row of any other pair is found as before
    saved-other :
        (qid uid : String)
        → ¬ ((db.uuid.same qid pid ≡ true) × (db.uuid.same uid gid ≡ true))
        → db.shares.find_one (of_pair db qid uid) saved.shares
          ≡ db.shares.find_one (of_pair db qid uid) t.shares
    saved-other qid uid apart =
        find_one_same db.shares _ t.shares saved.shares
          (λ s r ms mr hs hr. pair_single db t qid uid w s r ms mr hs hr)
          (λ s h m.
            (db.shares.in_save x t.shares s).1 (inr (m, λ e. apart (meet s h (g.held s m e)))))
          (λ s h m. elim ((db.shares.in_save x t.shares s).0 m) [
            | inl e ↦ absurd (apart (meet s h (rw e g.paired)))
            | inr (n, ne) ↦ n
          ])
      where
        meet :
            (s : CameraShareEntity)
            → of_pair db qid uid s ≡ true
            → of_pair db pid gid s ≡ true
            → (db.uuid.same qid pid ≡ true) × (db.uuid.same uid gid ≡ true)
        meet s h k =
            let a = both_true _ _ h in
            let b = both_true _ _ k in
            (
              db.uuid.same_trans _ _ _ (db.uuid.same_sym _ _ a.0) b.0,
              db.uuid.same_trans _ _ _ (db.uuid.same_sym _ _ a.1) b.1,
            )

  profile_level-same :
      (t u : Tables) (uid qid : String) (o : Option CameraProfileEntity)
      → db.shares.find_one (of_pair db qid uid) u.shares
        ≡ db.shares.find_one (of_pair db qid uid) t.shares
      → profile_level db uid qid u o ≡ profile_level db uid qid t o
  unfolding profile_level
  profile_level-same t u uid qid none e = refl
  profile_level-same t u uid qid (some p) e = rw e

  -- `access` reads the shares at the one pair only
  pub access-same :
      (t u : Tables) (uid qid : String)
      → u.profiles ≡ t.profiles
      → db.shares.find_one (of_pair db qid uid) u.shares
        ≡ db.shares.find_one (of_pair db qid uid) t.shares
      → access db uid qid u ≡ access db uid qid t
  unfolding access
  access-same t u uid qid e f = rw (
    e,
    profile_level-same t u uid qid (db.profiles.find_one (λ p. db.uuid.same p.id qid) t.profiles) f,
  )

  module _ (t : Tables) (profile_id email : String) (permission : SharePermission)
      (w : WellFormed db t) where
    abbrev row : UserEntity → CameraShareEntity
    row g =
        granted_row db profile_id g.id permission t
          (db.shares.find_one (of_pair db profile_id g.id) t.shares)

    row-IsGrantRow : (g : UserEntity) → IsGrantRow t profile_id g.id permission (row g)
    row-IsGrantRow g = granted_row-IsGrantRow t profile_id g.id permission w _ refl

    grant_found :
        (g : UserEntity)
        → find_by_email db email t ≡ some g
        → (grant db profile_id email permission t).1
          ≡ saved t profile_id g.id permission (row g) w (row-IsGrantRow g)
    unfolding grant grant_to
    grant_found g e = rw e

    -- A grant keeps the unique constraints of tables that meet them, whoever it is for.
    pub grant-WellFormed : WellFormed db (grant db profile_id email permission t).1
    grant-WellFormed = elim (Option-cases (find_by_email db email t)) [
      | inl unknown ↦ unfold grant grant_to in rw unknown w
      | inr (g, found) ↦
          rw (grant_found g found)
            (saved-WellFormed t profile_id g.id permission (row g) w (row-IsGrantRow g))
    ]

    -- For a profile id that is a uuid, over tables that meet their unique constraints: after a grant
    -- to a user who exists and does not own the profile, which is there, `access` gives that user the
    -- level of the permission granted, whatever share the user had before.
    pub access-grant_self :
        (g : UserEntity) (p : CameraProfileEntity)
        → is_uuid profile_id ≡ true
        → find_by_email db email t ≡ some g
        → In p t.profiles
        → db.uuid.same p.id profile_id ≡ true
        → p.owner_id ≢ g.id
        → access db g.id profile_id (grant db profile_id email permission t).1
          ≡ some (level_of permission)
    access-grant_self g p u found m h other =
        let x = row g in
        let r = row-IsGrantRow g in
        let parts = both_true _ _ r.paired in
        rw (grant_found g found) (
          (access_iff db (saved t profile_id g.id permission x w r) g.id profile_id
              (level_of permission) (saved-WellFormed t profile_id g.id permission x w r) u).1
            (by_share p m h other x (saved-held t profile_id g.id permission x w r) parts.0 parts.1
              (ap level_of (sym r.permitted))))

    -- Over tables that meet their unique constraints, a grant to a user who exists changes no access
    -- but that of the grantee to the profile.
    pub access-grant_other :
        (g : UserEntity) (uid qid : String)
        → find_by_email db email t ≡ some g
        → ¬ ((db.uuid.same qid profile_id ≡ true) × (db.uuid.same uid g.id ≡ true))
        → access db uid qid (grant db profile_id email permission t).1 ≡ access db uid qid t
    access-grant_other g uid qid found apart = rw (grant_found g found) (
        access-same t (saved t profile_id g.id permission (row g) w (row-IsGrantRow g)) uid qid refl
          (saved-other t profile_id g.id permission (row g) w (row-IsGrantRow g) qid uid apart))
