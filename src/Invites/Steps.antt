-- ===== src/Invites/Steps.antt =====
-- Calls of `redeem` that run side by side, on one database.
use reolink_station.Prelude.{ℕ, String, ◌≡◌, ◌==◌, if◌then◌else◌}
use reolink_station.Tables.{Repository}
use reolink_station.Entities.{UserEntity}
use reolink_station.Invites.{
  InviteEntity, World, Updates, Phase, looking_up, checking, hashing, claiming, creating, Insertion,
  create_invite, look_up, check_email, claim, claimed_rows, create_user, created_rows,
}

-- Where the call with each number stands.
pub record System : Type 0 where
  pub world : World
  pub phase : ℕ → Phase

abbrev pub put : ℕ → Phase → World → System → System
put i p w s = record { world = w; phase = λ j. if i == j then p else s.phase j }

module _ (invites : Repository InviteEntity (λ r. r.id)) (updates : Updates InviteEntity)
    (users : Repository UserEntity (λ r. r.id)) (digest : String → String) where
  -- `token i` is the token of the call `i`. A call makes its next step, in any order with the
  -- others, or an invitation is created. argon2 may give any hash.
  pub data Step (token : ℕ → String) : System → System → Type 0 where
    invited :
        {s : System}
        → (email t : String)
        → Step token s
            (record s { world = create_invite invites updates users digest email t s.world })
    looked :
        {s : System}
        → (i : ℕ) → s.phase i ≡ looking_up
        → Step token s (put i (look_up invites updates users digest (token i) s.world) s.world s)
    checked :
        {s : System}
        → (i : ℕ) (v : InviteEntity) → s.phase i ≡ checking v
        → Step token s (put i (check_email invites updates users digest v s.world) s.world s)
    hashed :
        {s : System}
        → (i : ℕ) (v : InviteEntity) (hash : String) → s.phase i ≡ hashing v
        → Step token s (put i (claiming v hash) s.world s)
    claims :
        {s : System}
        → (i : ℕ) (v : InviteEntity) (hash : String) (now : ℕ) → s.phase i ≡ claiming v hash
        → Step token s (
            put i
              (claim invites updates users digest v hash s.world)
              (claimed_rows invites updates users digest v now s.world)
              s)
    creates :
        {s : System}
        → (i : ℕ) (v : InviteEntity) (hash : String) (answer : Insertion)
        → s.phase i ≡ creating v hash
        → Step token s (
            put i
              (create_user invites updates users digest v hash answer s.world)
              (created_rows invites updates users digest v hash answer s.world)
              s)

  -- The states that are reached from a database, where no call has begun.
  pub data Reach (token : ℕ → String) (w : World) : System → Type 0 where
    start : Reach token w (record { world = w; phase = λ i. looking_up })
    step : {s u : System} → Reach token w s → Step token s u → Reach token w u
