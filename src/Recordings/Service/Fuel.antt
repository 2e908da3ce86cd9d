-- ===== src/Recordings/Service/Fuel.antt =====
-- The walk of `prune` comes to its end.
use mathlib.Core.Option as Option
use reolink_station.Prelude.{
  ℕ, zero, suc, ◌<◌, String, true, Option, none, some, List, [], ◌∷◌, ◌≡◌, ◌≢◌, inl, inr, refl, sym,
  ◌∙◌, In, arith, Bool-cases, Option-cases,
}
use reolink_station.Http.{Result, ok, Result-cases}
use reolink_station.CameraProfiles.{Connection}
use reolink_station.Recordings.PathSafety.{PosixPath}
use reolink_station.Recordings.Remote.{Config, FileInfo, Sftp, State, below, is_old}
use reolink_station.Recordings.Service.{
  Walked, out_of_fuel, threw, finished, and_walk, end_walk, walk_items, walk, conn, resolve,
  prune_base, prune_connected, prune, invalidated,
}
use reolink_station.Recordings.Service.Walk.{walk-none, walk-some, after_list}
use reolink_station.Recordings.Service.Prune.{prune_base-err, prune_base-ok, prune-ok}

module _ {S : Type 0} (path : PosixPath) (sftp : Sftp S)
    (profiles : String → Result (Option Connection)) (now days : ℕ) where
  -- A bound on the depth of the tree that the server shows below each directory.
  abbrev pub IsDepth : Config → (String → ℕ) → Type 0
  IsDepth cfg depth =
      (remote : S) (dir : String) (items : List FileInfo) (i : FileInfo)
      → (sftp.list cfg dir remote).0 ≡ some items
      → In i items
      → i.is_dir ≡ true
      → depth (below dir i.name) < depth dir

  module _ (cfg : Config) (depth : String → ℕ) (bound : IsDepth cfg depth) where
    module _ (sub : String → ℕ → State S → Walked S) (fuel : ℕ)
        (sub_ends : (d : String) (n : ℕ) (st : State S)
          → depth d < fuel
          → sub d n st ≢ out_of_fuel) where
      abbrev rest : String → List FileInfo → ℕ → State S → Walked S
      rest dir items n st = walk_items path sftp profiles cfg now days sub dir items n st

      behind_dir :
          (dir : String) (items : List FileInfo) (w : Walked S)
          → w ≢ out_of_fuel
          → ((n : ℕ) (st : State S) → rest dir items n st ≢ out_of_fuel)
          → and_walk w (λ n st. rest dir items n st) ≢ out_of_fuel
      behind_dir dir items out_of_fuel h ih e = h refl
      behind_dir dir items (threw st) h ih e = cc e
      behind_dir dir items (finished n st) h ih e = ih n st e

      items_end :
          (dir : String) (items : List FileInfo) (n : ℕ) (st : State S)
          → ((i : FileInfo) → In i items → i.is_dir ≡ true → depth (below dir i.name) < fuel)
          → rest dir items n st ≢ out_of_fuel
      unfolding walk_items
      items_end dir [] n st h e = cc e
      items_end dir (i ∷ items) n st h e = elim (Bool-cases i.is_dir) [
        | inl d ↦
            behind_dir dir items (sub (below dir i.name) n st)
              (sub_ends (below dir i.name) n st (h i (inl refl) d))
              (λ m u. items_end dir items m u (λ x mx. h x (inr mx))) (rw d at e)
        | inr d ↦ elim (Bool-cases (is_old now days i)) [
          | inl o ↦ items_end dir items _ _ (λ x mx. h x (inr mx)) (rw (d, o) at e)
          | inr o ↦ items_end dir items n st (λ x mx. h x (inr mx)) (rw (d, o) at e)
        ]
      ]

    walk_ends :
        (fuel : ℕ) (dir : String) (n : ℕ) (st : State S)
        → depth dir < fuel
        → walk path sftp profiles cfg now days fuel dir n st ≢ out_of_fuel
    walk_ends zero dir n st h e = omega arith
    walk_ends (suc fuel) dir n st h e = elim (Option-cases (sftp.list cfg dir st.remote).0) [
      | inl missing ↦ cc (e, walk-none path sftp profiles cfg now days dir fuel dir n st missing)
      | inr (items, found) ↦
          items_end (walk path sftp profiles cfg now days fuel) fuel (walk_ends fuel) dir items n
            (after_list path sftp profiles cfg now days dir dir items st)
            (λ i m d. let lower = bound st.remote dir items i found m d in omega arith)
            (sym (walk-some path sftp profiles cfg now days dir fuel dir n st items found) ∙ e)
    ]

    end_walk-some : (w : Walked S) → w ≢ out_of_fuel → end_walk w ≢ none
    end_walk-some out_of_fuel h e = h refl
    end_walk-some (threw st) h e = cc e
    end_walk-some (finished n st) h e = cc e

  map_some :
      (id : String) (o : Option (Result ℕ × State S))
      → o ≢ none
      → Option.map (invalidated id) o ≢ none
  map_some id none h e = h refl
  map_some id (some out) h e = cc e

  prune_base_ends :
      (fuel : ℕ) (cfg : Config) (base : Option String) (st : State S) (depth : String → ℕ)
      → IsDepth cfg depth
      → ((root : String) → resolve path sftp profiles base "" ≡ ok root → depth root < fuel)
      → prune_base path sftp profiles fuel now days cfg base st ≢ none
  prune_base_ends fuel cfg base st depth bound enough e =
      elim (Result-cases (resolve path sftp profiles base "")) [
        | inl (x, f) ↦ cc (e, prune_base-err path sftp profiles now days fuel cfg base st x f)
        | inr (root, f) ↦
            end_walk-some cfg depth bound (walk path sftp profiles cfg now days fuel root 0 st)
              (walk_ends cfg depth bound fuel root 0 st (enough root f))
              (sym (prune_base-ok path sftp profiles now days fuel cfg base st root f) ∙ e)
      ]

  -- Where the tree that the server shows has a bounded depth, `prune` does not run out of fuel that
  -- is more than the depth of the base directory: the walk comes to its end.
  pub prune_ends :
      (fuel : ℕ) (id : String) (cfg : Config) (base : Option String) (st : State S)
      (depth : String → ℕ)
      → IsDepth cfg depth
      → conn path sftp profiles id ≡ ok (cfg, base)
      → ((root : String) → resolve path sftp profiles base "" ≡ ok root → depth root < fuel)
      → prune path sftp profiles fuel now days id st ≢ none
  unfolding prune_connected
  prune_ends fuel id cfg base st depth bound there enough e =
      map_some id (prune_connected path sftp profiles fuel now days cfg base st) connected
        (sym (prune-ok path sftp profiles now days fuel id cfg base st there) ∙ e)
    where
      connected : prune_connected path sftp profiles fuel now days cfg base st ≢ none
      connected f = elim (Bool-cases (sftp.acquire cfg st.remote).0) [
        | inl got ↦
            prune_base_ends fuel cfg base (record st { remote = (sftp.acquire cfg st.remote).1 })
              depth bound enough (rw got at f)
        | inr not_got ↦ cc (rw not_got at f)
      ]
