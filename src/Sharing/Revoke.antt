-- ===== src/Sharing/Revoke.antt =====
-- `revoke`: who loses access, and that nobody else does.
use reolink_station.Prelude.{
  String, Bool, true, false, none, some, In, ◌≡◌, ◌⊎◌, inl, inr, refl, ap, ◌∙◌, Bool-cases,
  Option-cases, arith, both_true,
}
use reolink_station.Tables.Lookup.{find_one_same}
use reolink_station.Entities.{CameraShareEntity}
use reolink_station.Database.{Database, Tables}
use reolink_station.Sharing.{AccessLevel, owner_level, of_pair, access, revoke}
use reolink_station.Sharing.Entitled.{WellFormed, by_ownership, by_share, pair_single, access_sound}
use reolink_station.Sharing.Grant.{access-same}

module _ (db : Database) where
  -- fewer shares meet the constraints that the shares met
  pub fewer-WellFormed :
      (t : Tables) (p : CameraShareEntity → Bool)
      → WellFormed db t
      → WellFormed db (record t { shares = db.shares.delete p t.shares })
  fewer-WellFormed t p w =
      let old = λ (s : CameraShareEntity) (m : In s (db.shares.delete p t.shares)).
        ((db.shares.in_delete p t.shares s).0 m).0 in
      record {
        profile_key = w.profile_key;
        share_key = λ s r m n. w.share_key s r (old s m) (old r n);
        share_pair = λ s r m n. w.share_pair s r (old s m) (old r n);
      }

  revoked-level :
      (t : Tables) (profile_id grantee_id : String) (l : AccessLevel)
      → access db grantee_id profile_id (revoke db profile_id grantee_id t) ≡ some l
      → l ≡ owner_level
  unfolding revoke
  revoked-level t pid gid l e = elim (access_sound db (revoke db pid gid t) gid pid l e) [
    | by_ownership p m h own r ↦ r
    | by_share p m h other s ms hp hg r ↦
        let gone = ((db.shares.in_delete _ t.shares s).0 ms).1 in ground arith
  ]

  -- After a revocation the user has no level on the profile, or owns it.
  pub access-revoke_self :
      (t : Tables) (profile_id grantee_id : String)
      → (access db grantee_id profile_id (revoke db profile_id grantee_id t) ≡ none)
        ⊎ (access db grantee_id profile_id (revoke db profile_id grantee_id t) ≡ some owner_level)
  access-revoke_self t pid gid = elim (Option-cases (access db gid pid (revoke db pid gid t))) [
    | inl e ↦ inl e
    | inr (l, e) ↦ inr (e ∙ ap some (revoked-level t pid gid l e))
  ]

  -- Over tables that meet their unique constraints, a revocation changes no access but that of the
  -- grantee to the profile.
  pub access-revoke_other :
      (t : Tables) (profile_id grantee_id uid qid : String)
      → WellFormed db t
      → ¬ ((db.uuid.same qid profile_id ≡ true) × (db.uuid.same uid grantee_id ≡ true))
      → access db uid qid (revoke db profile_id grantee_id t) ≡ access db uid qid t
  unfolding revoke
  access-revoke_other t pid gid uid qid w apart =
      access-same db t (revoke db pid gid t) uid qid refl (
        find_one_same db.shares _ t.shares _ (λ s r ms mr. pair_single db t qid uid w s r ms mr)
          (λ s h m. (db.shares.in_delete _ t.shares s).1 (m, kept s h))
          (λ s h m. ((db.shares.in_delete _ t.shares s).0 m).0))
    where
      kept : (s : CameraShareEntity) → of_pair db qid uid s ≡ true → of_pair db pid gid s ≡ false
      kept s h = elim (Bool-cases (of_pair db pid gid s)) [
        | inr other ↦ other
        | inl k ↦
            let a = both_true _ _ h in
            let b = both_true _ _ k in
            absurd (
              apart (
                db.uuid.same_trans _ _ _ (db.uuid.same_sym _ _ a.0) b.0,
                db.uuid.same_trans _ _ _ (db.uuid.same_sym _ _ a.1) b.1,
              ))
      ]
