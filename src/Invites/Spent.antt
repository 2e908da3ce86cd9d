-- ===== src/Invites/Spent.antt =====
-- A token whose invitation has been claimed.
use reolink_station.Prelude.{
  ℕ, String, some, ◌≡◌, inl, inr, refl, In, Bool-cases, same_text, eq_iff, arith,
}
use reolink_station.Tables.{Repository}
use reolink_station.Tables.Lookup.{find_one_absent}
use reolink_station.Entities.{UserEntity}
use reolink_station.Http.{bad_request}
use reolink_station.Invites.{InviteEntity, World, Updates, is_pending, refused, look_up}
use reolink_station.Invites.Steps.{System, Reach}
use reolink_station.Invites.Claims.{holds, Reach-claims}

module _ (invites : Repository InviteEntity (λ r. r.id)) (updates : Updates InviteEntity)
    (users : Repository UserEntity (λ r. r.id)) (digest : String → String) where
  -- Once a call has claimed an invitation, whether it then creates the account or fails, every call
  -- that looks up the token is told that the invitation is invalid or used, where no other
  -- invitation has the token.
  pub look_up-spent :
      {token : ℕ → String} {w : World} {s : System}
      → Reach invites updates users digest token w s
      → (i : ℕ) (v t : String) → holds (s.phase i) ≡ some v
      → ((r : InviteEntity) → In r s.world.invites → r.token_hash ≡ digest t → r.id ≡ v)
      → look_up invites updates users digest t s.world ≡ refused bad_request
  unfolding look_up
  look_up-spent {s = s} h i v t e only =
      let spent = (Reach-claims invites updates users digest h i i v e e).1 in
      let gone =
        find_one_absent invites (is_pending invites updates users digest t) s.world.invites (λ r m.
          elim (Bool-cases (same_text r.token_hash (digest t))) [
            | inl same ↦
                let used = spent.0 r m (only r m ((eq_iff r.token_hash (digest t)).0 same)) in
                ground arith
            | inr other ↦ ground arith
          ]) in
      rw (gone, look_up) refl
