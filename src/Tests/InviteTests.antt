-- ===== src/Tests/InviteTests.antt =====
-- One call of `redeem`, to its end.
use reolink_station.Prelude.{ℕ, String, [], ◌∷◌, some, none, ◌≡◌, refl, In}
use reolink_station.Tables.{Repository}
use reolink_station.Entities.{UserEntity, user}
use reolink_station.Invites.{
  InviteEntity, World, Updates, looking_up, checking, hashing, claiming, creating, succeeded,
  inserted, look_up, check_email, claim, claimed_rows, create_user, created_rows, new_user,
}
use reolink_station.Invites.Steps.{
  System, put, looked, checked, hashed, claims, creates, Reach, start, step,
}
use reolink_station.Invites.Claims.{Redeemed, Reach-claims}
use reolink_station.Invites.Accounts.{Reach-account}
use reolink_station.Prelude.{ap, inl, inr}
use reolink_station.Http.{bad_request}
use reolink_station.Invites.{refused}
use reolink_station.Invites.Spent.{look_up-spent}
use reolink_station.Tests.ListTables.{list_repository}
use reolink_station.Tests.ListUpdates.{list_updates}

unfoldable invites : Repository InviteEntity (λ r. r.id)
unfolding list_repository
invites = list_repository (λ r. r.id)

unfoldable users : Repository UserEntity (λ r. r.id)
unfolding list_repository
users = list_repository (λ r. r.id)

unfoldable updates : Updates InviteEntity
unfolding list_updates
updates = list_updates

abbrev digest : String → String
digest t = t

abbrev invite : InviteEntity
invite = record { id = "i"; email = "bob@x"; token_hash = "secret"; redeemed_at = none }

abbrev world : World
world = record { invites = invite ∷ []; users = [] }

abbrev token : ℕ → String
token i = "secret"

abbrev world_claimed : World
world_claimed = record world { invites = record invite { redeemed_at = some 7 } ∷ [] }

abbrev bob : UserEntity
bob = record { id = "0"; email = "bob@x"; password_hash = "hash"; role = user }

abbrev world_created : World
world_created = record world_claimed { users = bob ∷ [] }

abbrev begun : System
begun = record { world = world; phase = λ i. looking_up }

abbrev claimed_state : System
claimed_state = put 0 (creating invite "hash") world_claimed (
    put 0 (claiming invite "hash") world
      (put 0 (hashing invite) world (put 0 (checking invite) world begun)))

abbrev ended : System
ended = put 0 (succeeded invite bob) world_created claimed_state

claimed_reached : Reach invites updates users digest token world claimed_state
unfolding invites users updates look_up check_email claim claimed_rows
claimed_reached =
    step
      (step (step (step start (looked 0 refl)) (checked 0 invite refl))
        (hashed 0 invite "hash" refl))
      (claims 0 invite "hash" 7 refl)

ended_reached : Reach invites updates users digest token world ended
unfolding invites users updates create_user created_rows new_user
ended_reached = step claimed_reached (creates 0 invite "hash" inserted refl)

abbrev first : ℕ
first = 0

Reach-claims_example : (first ≡ first) × Redeemed "i" claimed_state.world
Reach-claims_example =
    Reach-claims invites updates users digest claimed_reached first first "i" refl refl

Reach-account_example :
    (invite.token_hash ≡ digest "secret") × In bob ended.world.users × (bob.email ≡ invite.email)
Reach-account_example = Reach-account invites updates users digest ended_reached 0 invite bob refl

only_invite :
    (r : InviteEntity) → In r ended.world.invites → r.token_hash ≡ digest "secret" → r.id ≡ "i"
only_invite r (inl e) h = ap (λ (x : InviteEntity). x.id) e
only_invite r (inr m) h = elim m [ ]

look_up-spent_example :
    look_up invites updates users digest "secret" ended.world ≡ refused bad_request
look_up-spent_example =
    look_up-spent invites updates users digest ended_reached first "i" "secret" refl only_invite
