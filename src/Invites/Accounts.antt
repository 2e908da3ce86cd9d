-- ===== src/Invites/Accounts.antt =====
-- The accounts that `redeem` creates.
use reolink_station.Prelude.{
  ℕ, String, ◌&&◌, ◌≡◌, inl, inr, refl, sym, subst, ◌==◌, In, Bool-cases, Option-cases, same_text,
  eq_iff, both_true, nat_eq_iff,
}
use reolink_station.Tables.{Repository}
use reolink_station.Entities.{UserEntity}
use reolink_station.Http.{bad_request, conflict}
use reolink_station.Invites.{
  InviteEntity, World, Updates, is_null, Phase, looking_up, checking, hashing, claiming, creating,
  succeeded, refused, failed, Insertion, inserted, unique_violation, other_error, create_invite,
  look_up, check_email, claimable, claim, claimed_rows, create_user, created_rows, new_user,
}
use reolink_station.Invites.Steps.{
  System, put, Step, invited, looked, checked, hashed, claims, creates, Reach, start, step,
}

module _ (invites : Repository InviteEntity (λ r. r.id)) (updates : Updates InviteEntity)
    (users : Repository UserEntity (λ r. r.id)) (digest : String → String) where
  -- What a call with the token `t` knows where it stands at a phase.
  abbrev Knows : String → World → Phase → Type 0
  Knows t w looking_up = Unit {0}
  Knows t w (checking v) = v.token_hash ≡ digest t
  Knows t w (hashing v) = v.token_hash ≡ digest t
  Knows t w (claiming v hash) = v.token_hash ≡ digest t
  Knows t w (creating v hash) = v.token_hash ≡ digest t
  Knows t w (succeeded v u) = (v.token_hash ≡ digest t) × In u w.users × (u.email ≡ v.email)
  Knows t w (refused e) = Unit {0}
  Knows t w (failed v e) = Unit {0}

  abbrev Keeps : World → World → Type 0
  Keeps w w' = (u : UserEntity) → In u w.users → In u w'.users

  Keeps-Knows : (t : String) (w w' : World) (p : Phase) → Keeps w w' → Knows t w p → Knows t w' p
  Keeps-Knows t w w' looking_up k h = h
  Keeps-Knows t w w' (checking v) k h = h
  Keeps-Knows t w w' (hashing v) k h = h
  Keeps-Knows t w w' (claiming v hash) k h = h
  Keeps-Knows t w w' (creating v hash) k h = h
  Keeps-Knows t w w' (succeeded v u) k (a, m, b) = (a, k u m, b)
  Keeps-Knows t w w' (refused e) k h = h
  Keeps-Knows t w w' (failed v e) k h = h

  abbrev AllKnow : (ℕ → String) → System → Type 0
  AllKnow token s = (j : ℕ) → Knows (token j) s.world (s.phase j)

  put-AllKnow :
      (token : ℕ → String) (i : ℕ) (p : Phase) (w : World) (s : System)
      → Keeps s.world w
      → Knows (token i) w p
      → AllKnow token s
      → AllKnow token (put i p w s)
  put-AllKnow token i p w s k new h j = elim (Bool-cases (i == j)) [
    | inl e ↦ rw e (subst (λ n. Knows (token n) w p) ((nat_eq_iff i j).0 e) new)
    | inr e ↦ rw e (Keeps-Knows (token j) s.world w (s.phase j) k (h j))
  ]

  look_up-Knows : (t : String) (w : World) → Knows t w (look_up invites updates users digest t w)
  unfolding look_up
  look_up-Knows t w =
      elim (Option-cases (
        invites.find_one (λ r. same_text r.token_hash (digest t) && is_null r.redeemed_at)
          w.invites)) [
            | inl e ↦
                let q : look_up invites updates users digest t w ≡ refused bad_request =
                  rw (e, look_up) refl in
                subst (Knows t w) (sym q) tt
            | inr (v, e) ↦
                let q : look_up invites updates users digest t w ≡ checking v =
                  rw (e, look_up) refl in
                let hit = (invites.find_one_hit _ _ _ e).1 in
                let parts =
                  both_true (same_text v.token_hash (digest t)) (is_null v.redeemed_at) hit in
                subst (Knows t w) (sym q) ((eq_iff v.token_hash (digest t)).0 parts.0)
          ]

  check_email-Knows :
      (t : String) (v : InviteEntity) (w : World)
      → v.token_hash ≡ digest t
      → Knows t w (check_email invites updates users digest v w)
  unfolding check_email
  check_email-Knows t v w h =
      elim (Option-cases (users.find_one (λ u. same_text u.email v.email) w.users)) [
        | inl e ↦
            let q : check_email invites updates users digest v w ≡ hashing v =
              rw (e, check_email) refl in
            subst (Knows t w) (sym q) h
        | inr (u, e) ↦
            let q : check_email invites updates users digest v w ≡ refused conflict =
              rw (e, check_email) refl in
            subst (Knows t w) (sym q) tt
      ]

  claim-Knows :
      (t hash : String) (v : InviteEntity) (w w' : World)
      → v.token_hash ≡ digest t
      → Knows t w' (claim invites updates users digest v hash w)
  unfolding claim
  claim-Knows t hash v w w' h = elim (Bool-cases (updates.affected (claimable v) w.invites == 0)) [
    | inl e ↦ rw e tt
    | inr e ↦ rw e h
  ]

  created-Keeps :
      (v : InviteEntity) (hash : String) (answer : Insertion) (w : World)
      → Keeps w (created_rows invites updates users digest v hash answer w)
  unfolding created_rows new_user
  created-Keeps v hash inserted w u m =
      (users.in_save _ w.users u).1 (inr (m, users.new_key_fresh w.users u m))
  created-Keeps v hash unique_violation w u m = m
  created-Keeps v hash other_error w u m = m

  created-Knows :
      (t hash : String) (v : InviteEntity) (answer : Insertion) (w : World)
      → v.token_hash ≡ digest t
      → Knows t
          (created_rows invites updates users digest v hash answer w)
          (create_user invites updates users digest v hash answer w)
  unfolding created_rows create_user new_user
  created-Knows t hash v inserted w h = (h, (users.in_save _ w.users _).1 (inl refl), refl)
  created-Knows t hash v unique_violation w h = tt
  created-Knows t hash v other_error w h = tt

  known :
      (token : ℕ → String) (s : System) (i : ℕ) (p : Phase)
      → s.phase i ≡ p
      → AllKnow token s
      → Knows (token i) s.world p
  known token s i p e h = subst (λ x. Knows (token i) s.world x) e (h i)

  Step-AllKnow :
      {token : ℕ → String} {s u : System}
      → Step invites updates users digest token s u
      → AllKnow token s
      → AllKnow token u
  unfolding create_invite claimed_rows
  Step-AllKnow {token} {s} (invited email t) h = λ j.
      Keeps-Knows (token j) s.world (create_invite invites updates users digest email t s.world)
        (s.phase j) (λ u m. m) (h j)
  Step-AllKnow {token} {s} (looked i e) h =
      put-AllKnow token i _ s.world s (λ u m. m) (look_up-Knows (token i) s.world) h
  Step-AllKnow {token} {s} (checked i v e) h =
      put-AllKnow token i _ s.world s (λ u m. m)
        (check_email-Knows (token i) v s.world (known token s i (checking v) e h)) h
  Step-AllKnow {token} {s} (hashed i v hash e) h =
      put-AllKnow token i (claiming v hash) s.world s (λ u m. m) (known token s i (hashing v) e h) h
  Step-AllKnow {token} {s} (claims i v hash now e) h =
      put-AllKnow token i _ (claimed_rows invites updates users digest v now s.world) s (λ u m. m)
        (claim-Knows (token i) hash v s.world
          (claimed_rows invites updates users digest v now s.world)
          (known token s i (claiming v hash) e h))
        h
  Step-AllKnow {token} {s} (creates i v hash answer e) h =
      put-AllKnow token i _ (created_rows invites updates users digest v hash answer s.world) s
        (created-Keeps v hash answer s.world)
        (created-Knows (token i) hash v answer s.world (known token s i (creating v hash) e h)) h

  Reach-AllKnow :
      {token : ℕ → String} {w : World} {s : System}
      → Reach invites updates users digest token w s
      → AllKnow token s
  Reach-AllKnow start = λ j. tt
  Reach-AllKnow (step h t) = Step-AllKnow t (Reach-AllKnow h)

  -- A call that succeeded had the token of the invitation that it found, and the user that it
  -- returns is in the database, with the e-mail address that was invited.
  pub Reach-account :
      {token : ℕ → String} {w : World} {s : System}
      → Reach invites updates users digest token w s
      → (i : ℕ) (v : InviteEntity) (u : UserEntity) → s.phase i ≡ succeeded v u
      → (v.token_hash ≡ digest (token i)) × In u s.world.users × (u.email ≡ v.email)
  Reach-account {token} {w} {s} h i v u e = known token s i (succeeded v u) e (Reach-AllKnow h)
