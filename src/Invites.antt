-- ===== src/Invites.antt =====
-- src/invites/invites.service.ts: `InvitesService`. `redeem` is cut at its `await`s: a `Phase` is
-- where one call stands, with the variables that are in scope there, and a function makes each step.
pub mod Steps
pub mod Claims
pub mod Accounts
pub mod Spent
use reolink_station.Prelude.{
  ℕ, String, Bool, true, false, ◌&&◌, Option, none, some, List, ◌≡◌, ◌↔◌, ◌⊎◌, In, same_text, ◌==◌,
  if◌then◌else◌,
}
use reolink_station.Tables.{Repository}
use reolink_station.Entities.{user, UserEntity}
use reolink_station.Http.{HttpException, bad_request, conflict}

pub record InviteEntity : Type 0 where
  pub id : String
  pub email : String
  pub token_hash : String
  pub redeemed_at : Option ℕ

pub record World : Type 0 where
  pub invites : List InviteEntity
  pub users : List UserEntity

-- `IsNull()`
abbrev pub is_null : Option ℕ → Bool
is_null none = true
is_null (some t) = false

-- `repo.update(criterion, patch)` of TypeORM: one statement, which gives the number of rows that it
-- changed and the table after it
pub record Updates (Row : Type 0) : Type 0 where
  pub affected : (Row → Bool) → List Row → ℕ
  pub update : (Row → Bool) → (Row → Row) → List Row → List Row
  pub affected_none :
      (p : Row → Bool) (t : List Row) (r : Row) → affected p t ≡ 0 → In r t → p r ≡ false
  pub affected_some :
      (p : Row → Bool) (t : List Row)
      → (affected p t == 0) ≡ false
      → (r : Row) × In r t × (p r ≡ true)
  pub in_update :
      (p : Row → Bool) (f : Row → Row) (t : List Row) (r : Row)
      → In r (update p f t)
        ↔ ((In r t × (p r ≡ false)) ⊎ ((s : Row) × In s t × (p s ≡ true) × (r ≡ f s)))

pub data Phase : Type 0 where
  looking_up : Phase
  checking : InviteEntity → Phase
  hashing : InviteEntity → Phase
  claiming : InviteEntity → String → Phase
  creating : InviteEntity → String → Phase
  -- `redeem` returned the id and the email of the user
  succeeded : InviteEntity → UserEntity → Phase
  -- it threw before the claim, and after it; `none` is the error of the database, thrown again
  refused : HttpException → Phase
  failed : InviteEntity → Option HttpException → Phase

-- what the database answers to the insertion of a user
pub data Insertion : Type 0 where
  inserted unique_violation other_error : Insertion

-- the criterion of the claim
abbrev pub claimable : InviteEntity → InviteEntity → Bool
claimable invite r = same_text r.id invite.id && is_null r.redeemed_at

-- `digest` is `createHash('sha256').update(token).digest('hex')`.
module _ (invites : Repository InviteEntity (λ r. r.id)) (updates : Updates InviteEntity)
    (users : Repository UserEntity (λ r. r.id)) (digest : String → String) where
  -- `createInvite`, of the token that `randomBytes` gave
  unfoldable pub create_invite : String → String → World → World
  create_invite email token w = record w {
    invites =
        invites.save
          (record {
            id = invites.new_key w.invites;
            email = email;
            token_hash = digest token;
            redeemed_at = none;
          })
          w.invites;
  }

  abbrev pub is_pending : String → InviteEntity → Bool
  is_pending token r = same_text r.token_hash (digest token) && is_null r.redeemed_at

  unfoldable pub look_up : String → World → Phase
  look_up token w = elim (invites.find_one (is_pending token) w.invites) [
    | none ↦ refused bad_request
    | some invite ↦ checking invite
  ]

  unfoldable pub check_email : InviteEntity → World → Phase
  check_email invite w = elim (users.find_one (λ u. same_text u.email invite.email) w.users) [
    | some u ↦ refused conflict
    | none ↦ hashing invite
  ]

  unfoldable pub claim : InviteEntity → String → World → Phase
  claim invite hash w =
      if updates.affected (claimable invite) w.invites == 0
      then refused bad_request
      else creating invite hash

  unfoldable pub claimed_rows : InviteEntity → ℕ → World → World
  claimed_rows invite now w = record w {
    invites =
        updates.update (claimable invite) (λ r. record r { redeemed_at = some now }) w.invites;
  }

  -- `users.create(invite.email, passwordHash)`
  unfoldable pub new_user : InviteEntity → String → World → UserEntity
  new_user invite hash w = record {
    id = users.new_key w.users;
    email = invite.email;
    password_hash = hash;
    role = user;
  }

  unfoldable pub create_user : InviteEntity → String → Insertion → World → Phase
  unfolding new_user
  create_user invite hash inserted w = succeeded invite (new_user invite hash w)
  create_user invite hash unique_violation w = failed invite (some conflict)
  create_user invite hash other_error w = failed invite none

  unfoldable pub created_rows : InviteEntity → String → Insertion → World → World
  unfolding new_user
  created_rows invite hash inserted w = record w {
    users = users.save (new_user invite hash w) w.users;
  }
  created_rows invite hash unique_violation w = w
  created_rows invite hash other_error w = w
