-- ===== src/Invites/Claims.antt =====
-- The claim of an invitation: of all the calls that run side by side one at most gets past it.
use reolink_station.Prelude.{
  ℕ, String, true, false, ◌&&◌, Option, none, some, ◌≡◌, ◌≢◌, ◌⊎◌, inl, inr, refl, sym, ap, ◌∙◌,
  subst, ◌==◌, In, Bool-cases, Option-cases, same_text, eq_iff, arith, both_true, nat_eq_iff,
}
use reolink_station.Tables.{Repository}
use reolink_station.Entities.{UserEntity}
use reolink_station.Invites.{
  InviteEntity, World, Updates, is_null, Phase, looking_up, checking, hashing, claiming, creating,
  succeeded, refused, failed, Insertion, inserted, unique_violation, other_error, create_invite,
  look_up, check_email, claimable, claim, claimed_rows, create_user, created_rows,
}
use reolink_station.Http.{bad_request}
use reolink_station.Invites.Steps.{
  System, put, Step, invited, looked, checked, hashed, claims, creates, Reach, start, step,
}

-- The invitation that a call has claimed.
abbrev pub holds : Phase → Option String
holds looking_up = none
holds (checking v) = none
holds (hashing v) = none
holds (claiming v hash) = none
holds (creating v hash) = some v.id
holds (succeeded v u) = some v.id
holds (refused e) = none
holds (failed v e) = some v.id

-- The invitation is there, and is marked as redeemed.
abbrev pub Redeemed : String → World → Type 0
Redeemed v w =
    ((r : InviteEntity) → In r w.invites → r.id ≡ v → is_null r.redeemed_at ≡ false)
    × ((r : InviteEntity) × In r w.invites × (r.id ≡ v))

record Inv (s : System) : Type 0 where
  used : (i : ℕ) (v : String) → holds (s.phase i) ≡ some v → Redeemed v s.world
  once : (i j : ℕ) (v : String) → holds (s.phase i) ≡ some v → holds (s.phase j) ≡ some v → i ≡ j

-- What a call holds after a step of the call `i` to `p`.
holds-put :
    (i j : ℕ) (p : Phase) (w : World) (s : System) (v : String)
    → holds ((put i p w s).phase j) ≡ some v
    → ((i ≡ j) × (holds p ≡ some v)) ⊎ (holds (s.phase j) ≡ some v)
holds-put i j p w s v h = elim (Bool-cases (i == j)) [
  | inl e ↦ inl ((nat_eq_iff i j).0 e, rw e at h)
  | inr e ↦ inr (rw e at h)
]

-- A step that claims nothing.
keep :
    (i : ℕ) (p : Phase) (w : World) (s : System)
    → ((v : String) → holds p ≡ some v → holds (s.phase i) ≡ some v)
    → ((v : String) → Redeemed v s.world → Redeemed v w)
    → Inv s
    → Inv (put i p w s)
keep i p w s same grows h = record {
  used = λ j v e. grows v (h.used j v (old j v e));
  once = λ j k v e f. h.once j k v (old j v e) (old k v f);
}
  where
    old : (j : ℕ) (v : String) → holds ((put i p w s).phase j) ≡ some v → holds (s.phase j) ≡ some v
    old j v e = elim (holds-put i j p w s v e) [
      | inl (at_i, now) ↦ subst (λ k. holds (s.phase k) ≡ some v) at_i (same v now)
      | inr before ↦ before
    ]

-- A step that claims `v`, which no call holds.
win :
    (i : ℕ) (p : Phase) (w : World) (s : System) (v : String)
    → holds p ≡ some v
    → ((j : ℕ) → holds (s.phase j) ≢ some v)
    → Redeemed v w
    → ((u : String) → Redeemed u s.world → Redeemed u w)
    → Inv s
    → Inv (put i p w s)
win i p w s v mine free done grows h = record {
  used = λ j u e. elim (holds-put i j p w s u e) [
    | inl (at_i, now) ↦ subst (λ x. Redeemed x w) (same u now) done
    | inr before ↦ grows u (h.used j u before)
  ];
  once = λ j k u e f. elim (holds-put i j p w s u e) [
    | inl (at_i, now) ↦ elim (holds-put i k p w s u f) [
      | inl (at_k, too) ↦ sym at_i ∙ at_k
      | inr other ↦ absurd (free k (rw (same u now) other))
    ]
    | inr before ↦ elim (holds-put i k p w s u f) [
      | inl (at_k, too) ↦ absurd (free j (rw (same u too) before))
      | inr other ↦ h.once j k u before other
    ]
  ];
}
  where
    same : (u : String) → holds p ≡ some u → v ≡ u
    same u e = cc (mine, e)

module _ (invites : Repository InviteEntity (λ r. r.id)) (updates : Updates InviteEntity)
    (users : Repository UserEntity (λ r. r.id)) (digest : String → String) where
  create_invite-Redeemed :
      (email t v : String) (w : World)
      → Redeemed v w
      → Redeemed v (create_invite invites updates users digest email t w)
  unfolding create_invite
  create_invite-Redeemed email t v w (all, there) = (
    λ r m e. elim ((invites.in_save _ w.invites r).0 m) [
      | inl new ↦
          let (old, mo, same) = there in
          absurd (invites.new_key_fresh w.invites old mo (same ∙ sym e ∙ ap (λ x. x.id) new))
      | inr (old, apart) ↦ all r old e
    ],
    let (old, mo, same) = there in
        (
          old,
          (invites.in_save _ w.invites old).1 (inr (mo, invites.new_key_fresh w.invites old mo)),
          same,
        ),
  )

  claimed_rows-Redeemed :
      (x : InviteEntity) (now : ℕ) (v : String) (w : World)
      → Redeemed v w
      → Redeemed v (claimed_rows invites updates users digest x now w)
  unfolding claimed_rows
  claimed_rows-Redeemed x now v w (all, (old, mo, same)) = (
    λ r m e. elim ((updates.in_update (claimable x) _ w.invites r).0 m) [
      | inl (held, other) ↦ all r held e
      | inr (o, ho, hit, changed) ↦ rw changed refl
    ],
    elim (Bool-cases (claimable x old)) [
      | inl hit ↦ (
        record old { redeemed_at = some now },
        (updates.in_update (claimable x) _ w.invites _).1 (inr (old, mo, hit, refl)),
        same,
      )
      | inr miss ↦ (old, (updates.in_update (claimable x) _ w.invites old).1 (inl (mo, miss)), same)
    ],
  )

  -- The claim that changed a row.
  claimed_rows-mark :
      (x : InviteEntity) (now : ℕ) (w : World) (r : InviteEntity)
      → In r w.invites
      → claimable x r ≡ true
      → Redeemed x.id (claimed_rows invites updates users digest x now w)
  unfolding claimed_rows
  claimed_rows-mark x now w r m hit = (
    λ o mo e. elim ((updates.in_update (claimable x) _ w.invites o).0 mo) [
      | inl (held, other) ↦ let same = (eq_iff o.id x.id).1 e in ground arith
      | inr (q, hq, hit', changed) ↦ rw changed refl
    ],
    (
      record r { redeemed_at = some now },
      (updates.in_update (claimable x) _ w.invites _).1 (inr (r, m, hit, refl)),
      (eq_iff r.id x.id).0 (both_true _ _ hit).0,
    ),
  )

  claim-Inv :
      (s : System) (i : ℕ) (x : InviteEntity) (hash : String) (now : ℕ)
      → s.phase i ≡ claiming x hash
      → Inv s
      → Inv (
          put i
            (claim invites updates users digest x hash s.world)
            (claimed_rows invites updates users digest x now s.world)
            s)
  unfolding claim
  claim-Inv s i x hash now e h =
      elim (Bool-cases (updates.affected (claimable x) s.world.invites == 0)) [
        | inl lost ↦ rw lost (
            keep i (refused bad_request) (claimed_rows invites updates users digest x now s.world) s
              (λ v f. cc f) (λ v. claimed_rows-Redeemed x now v s.world) h)
        | inr won ↦
            let (r, m, hit) = updates.affected_some (claimable x) s.world.invites won in
            let parts = both_true (same_text r.id x.id) (is_null r.redeemed_at) hit in
            let same = (eq_iff r.id x.id).0 parts.0 in
            rw won (
              win i (creating x hash) (claimed_rows invites updates users digest x now s.world) s
                x.id refl
                (λ j f.
                  let spent = (h.used j x.id f).0 r m same in
                  let fresh = parts.1 in cc (spent, fresh))
                (claimed_rows-mark x now s.world r m hit)
                (λ v. claimed_rows-Redeemed x now v s.world) h)
      ]

  holds-look_up : (t : String) (w : World) → holds (look_up invites updates users digest t w) ≡ none
  unfolding look_up
  holds-look_up t w =
      elim (Option-cases (
        invites.find_one (λ r. same_text r.token_hash (digest t) && is_null r.redeemed_at)
          w.invites)) [ inl e ↦ rw (e, look_up) refl | inr (v, e) ↦ rw (e, look_up) refl ]

  holds-check_email :
      (v : InviteEntity) (w : World) → holds (check_email invites updates users digest v w) ≡ none
  unfolding check_email
  holds-check_email v w =
      elim (Option-cases (users.find_one (λ u. same_text u.email v.email) w.users)) [
        | inl e ↦ rw (e, check_email) refl
        | inr (u, e) ↦ rw (e, check_email) refl
      ]

  create-Inv :
      (s : System) (i : ℕ) (x : InviteEntity) (hash : String) (answer : Insertion)
      → s.phase i ≡ creating x hash
      → Inv s
      → Inv (
          put i
            (create_user invites updates users digest x hash answer s.world)
            (created_rows invites updates users digest x hash answer s.world)
            s)
  unfolding create_user created_rows
  create-Inv s i x hash inserted e h = keep i _ _ s (λ v f. rw e f) (λ v r. r) h
  create-Inv s i x hash unique_violation e h = keep i _ _ s (λ v f. rw e f) (λ v r. r) h
  create-Inv s i x hash other_error e h = keep i _ _ s (λ v f. rw e f) (λ v r. r) h

  Step-Inv :
      {token : ℕ → String} {s u : System}
      → Step invites updates users digest token s u
      → Inv s
      → Inv u
  Step-Inv {s = s} (invited email t) h = record {
    used = λ i v e. create_invite-Redeemed email t v s.world (h.used i v e);
    once = h.once;
  }
  Step-Inv {token} {s} (looked i e) h =
      keep i (look_up invites updates users digest (token i) s.world) s.world s
        (λ v f. cc (f, holds-look_up (token i) s.world)) (λ v r. r) h
  Step-Inv {s = s} (checked i x e) h =
      keep i (check_email invites updates users digest x s.world) s.world s
        (λ v f. cc (f, holds-check_email x s.world)) (λ v r. r) h
  Step-Inv {s = s} (hashed i x hash e) h =
      keep i (claiming x hash) s.world s (λ v f. cc f) (λ v r. r) h
  Step-Inv {s = s} (claims i x hash now e) h = claim-Inv s i x hash now e h
  Step-Inv {s = s} (creates i x hash answer e) h = create-Inv s i x hash answer e h

  Reach-Inv :
      {token : ℕ → String} {w : World} {s : System}
      → Reach invites updates users digest token w s
      → Inv s
  Reach-Inv start = record { used = λ i v e. cc e; once = λ i j v e f. cc e }
  Reach-Inv (step h t) = Step-Inv t (Reach-Inv h)

  -- However the calls of `redeem` interleave, an invitation is claimed by one of them at most, and
  -- one that is claimed is there and marked as redeemed.
  pub Reach-claims :
      {token : ℕ → String} {w : World} {s : System}
      → Reach invites updates users digest token w s
      → (i j : ℕ) (v : String) → holds (s.phase i) ≡ some v
      → holds (s.phase j) ≡ some v
      → (i ≡ j) × Redeemed v s.world
  Reach-claims h i j v e f = let k = Reach-Inv h in (k.once i j v e f, k.used i v e)
