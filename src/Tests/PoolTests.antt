-- ===== src/Tests/PoolTests.antt =====
-- The pools at concrete configurations.
use reolink_station.Prelude.{
  ℕ, String, some, [], ◌∷◌, ◌≡◌, refl, map, same_text, true, Bool-cases, inl, inr, if◌then◌else◌,
}
use reolink_station.Prelude.JsMap
use reolink_station.Prelude.Split.{is_free}
use reolink_station.Recordings.Remote.{Config}
use reolink_station.Recordings.Pools.{no_pools, client_config, key, pool_for, used, run}
use reolink_station.Recordings.Pools.Isolation.{IsPlain, Same, pool_for-Same}

abbrev digest : String → String
digest pass = if same_text pass "good" then "aa" else "bb"

abbrev show : ℕ → String
show n = "22"

abbrev box : Config
box = record { host = some "box"; port = some 22; user_name = some "u1"; pass = some "good" }

abbrev wrong : Config
wrong = record { host = some "box"; port = some 22; user_name = some "u1"; pass = some "bad" }

-- A wrong password gets a pool of its own.
own_pool :
    (pool_for digest show box (run digest show (used wrong ∷ []) no_pools)).0
    ≡ some (record { number = 1; key = "box:22:u1:aa" })
unfolding run pool_for key JsMap.get JsMap.set
own_pool = refl

digest-free : (pass : String) → is_free b':' (digest pass) ≡ true
unfolding is_free
digest-free pass = elim (Bool-cases (same_text pass "good")) [
  | inl e ↦ rw e refl
  | inr e ↦ rw e refl
]

box-IsPlain : IsPlain digest show box
unfolding is_free
box-IsPlain = (refl, refl, refl, digest-free)

wrong-IsPlain : IsPlain digest show wrong
unfolding is_free
wrong-IsPlain = (refl, refl, refl, digest-free)

pool_for-Same_example :
    (c : Config) × (client_config
        (record { number = 1; key = "box:22:u1:aa" })
        (run digest show
          (map used (wrong ∷ []))
          (pool_for digest show box (run digest show (used wrong ∷ []) no_pools)).1)
      ≡ some c)
    × Same digest show c box
pool_for-Same_example =
    pool_for-Same digest show (used wrong ∷ []) box (wrong ∷ [])
      (record { number = 1; key = "box:22:u1:aa" }) (wrong-IsPlain, tt) box-IsPlain own_pool
