-- ===== src/Tests/ControllerTests.antt =====
-- The handlers at concrete tables.
use reolink_station.Prelude.{
  ℕ, List, [], ◌∷◌, true, none, ◌≡◌, ◌↔◌, In, inl, inr, refl, Bool-cases, eq_iff, sym,
}
use reolink_station.Entities.{manage, CameraProfileEntity}
use reolink_station.Http.{ok}
use reolink_station.Sharing.{access}
use reolink_station.CameraProfiles.{Masked, to_masked}
use reolink_station.Controllers.{
  Request, list_profiles, get_profile, remove_profile, grant_share, revoke_share, serve_all, list,
}
use reolink_station.Controllers.Outsider.{FreshIds, serve_all-outsider}
use reolink_station.Controllers.Listing.{Visible, list-Visible}
use reolink_station.Tests.ListTables.{plain_uuid, list_repository, long_key-fresh}
use reolink_station.Tests.ZeroCrypto.{zero_crypto}
use reolink_station.Tests.SharingTests.{
  database, front_door, door, tables, tables-WellFormed, bob_not-Entitled,
}

-- Bob tries to get at the door of Ann.
abbrev attempts : List (Request ℕ)
attempts =
    grant_share front_door "bob@x" manage
    ∷ revoke_share front_door "u-ann"
    ∷ remove_profile front_door
    ∷ get_profile front_door
    ∷ list_profiles
    ∷ []

ids-FreshIds : FreshIds database zero_crypto 32 (λ id. true)
unfolding database plain_uuid list_repository
ids-FreshIds t q m = elim (Bool-cases (database.uuid.same (database.profiles.new_key t) q.id)) [
  | inr e ↦ e
  | inl e ↦ absurd (
      long_key-fresh (λ (p : CameraProfileEntity). p.id) t q m
        (sym ((eq_iff (database.profiles.new_key t) q.id).0 e)))
]

serve_all-outsider_example :
    (access database "u-bob" front_door
        (serve_all database zero_crypto 32 (λ id. true) "u-bob" attempts tables)
      ≡ none)
    × In door (serve_all database zero_crypto 32 (λ id. true) "u-bob" attempts tables).profiles
serve_all-outsider_example =
    serve_all-outsider database zero_crypto 32 (λ id. true) "u-bob" door attempts tables
      ids-FreshIds (inl refl) bob_not-Entitled

list-Visible_example :
    (out : List Masked) × (list database "u-ann" tables ≡ ok out)
    × ((m : Masked)
        → In m out ↔ (
            (p : CameraProfileEntity) × In p tables.profiles
            × Visible database tables "u-ann" p
            × (m ≡ to_masked p)))
list-Visible_example = list-Visible database tables "u-ann" tables-WellFormed
