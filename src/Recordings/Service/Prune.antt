-- ===== src/Recordings/Service/Prune.antt =====
-- `prune`, by the record of its calls.
use mathlib.Core.Option as Option
use reolink_station.Prelude.{
  ℕ, String, Option, none, some, List, [], ◌≡◌, ◌⊎◌, inl, inr, refl, ◌∙◌, subst, In, Bool-cases,
}
use reolink_station.Http.{HttpException, Result, ok, err, Result-cases, internal_error}
use reolink_station.CameraProfiles.{Connection}
use reolink_station.Recordings.PathSafety.{PosixPath}
use reolink_station.Recordings.Remote.{Config, FileInfo, Sftp, SftpCall, listed, State}
use reolink_station.Recordings.Service.{
  Walked, out_of_fuel, threw, finished, end_walk, walk, conn, resolve, prune_base, prune_connected,
  prune, invalidated,
}
use reolink_station.Recordings.Service.Log.{successes, Justified, Whole}
use reolink_station.Recordings.Service.Walk.{After, Visited, walk-After}

module _ {S : Type 0} (path : PosixPath) (sftp : Sftp S)
    (profiles : String → Result (Option Connection)) (now days : ℕ) where
  -- The walk from the root: what was asked of the server, and with a number all that it asks for.
  abbrev pub Walk : String → Result ℕ → List SftpCall → Type 0
  Walk root r log =
      Justified now days root log
      × ((n : ℕ)
          → r ≡ ok n
          → (successes log ≡ n)
            × ((items : List FileInfo) × In (listed root items) log)
            × ((d : String) (items : List FileInfo)
                → In (listed d items) log
                → Whole now days root log d items))

  -- Nothing was asked of the server, or the walk was made from the base directory.
  abbrev pub Pruned : Option String → Result ℕ × State S → Type 0
  Pruned base (r, st) =
      ((e : HttpException) × (r ≡ err e) × (st.calls ≡ []))
      ⊎ ((root : String) × (resolve path sftp profiles base "" ≡ ok root) × Walk root r st.calls)

  abbrev OnSome : (Result ℕ × State S → Type 0) → Option (Result ℕ × State S) → Type 0
  OnSome P none = Unit {0}
  OnSome P (some out) = P out

  of_OnSome :
      (P : Result ℕ × State S → Type 0) (o : Option (Result ℕ × State S)) (out : Result ℕ × State S)
      → OnSome P o
      → o ≡ some out
      → P out
  of_OnSome P o out h e = subst (OnSome P) e h

  end_walk-Pruned :
      (cfg : Config) (base : Option String) (root : String) (w : Walked S)
      → resolve path sftp profiles base "" ≡ ok root
      → After path sftp profiles cfg now days root []
          (Visited path sftp profiles cfg now days root root)
          w
      → OnSome (Pruned base) (end_walk w)
  end_walk-Pruned cfg base root out_of_fuel e a = tt
  end_walk-Pruned cfg base root (threw st) e (g, j) = inr (root, e, (j, λ n f. absurd (cc f)))
  end_walk-Pruned cfg base root (finished n st) e (g, j, s, w, seen) = inr (
    root,
    e,
    (
      j,
      λ m f.
          let same : n ≡ m = cc f in
          (
            s ∙ same,
            seen,
            λ d items listing. elim (w d items listing) [
              | inl older ↦ elim older [ ]
              | inr whole ↦ whole
            ],
          ),
    ),
  )

  pub prune_base-err :
      (fuel : ℕ) (cfg : Config) (base : Option String) (st : State S) (x : HttpException)
      → resolve path sftp profiles base "" ≡ err x
      → prune_base path sftp profiles fuel now days cfg base st ≡ some (err x, st)
  unfolding prune_base
  prune_base-err fuel cfg base st x e = rw (e, prune_base) refl

  pub prune_base-ok :
      (fuel : ℕ) (cfg : Config) (base : Option String) (st : State S) (root : String)
      → resolve path sftp profiles base "" ≡ ok root
      → prune_base path sftp profiles fuel now days cfg base st
        ≡ end_walk (walk path sftp profiles cfg now days fuel root 0 st)
  unfolding prune_base
  prune_base-ok fuel cfg base st root e = rw (e, prune_base) refl

  pub prune-ok :
      (fuel : ℕ) (id : String) (cfg : Config) (base : Option String) (st : State S)
      → conn path sftp profiles id ≡ ok (cfg, base)
      → prune path sftp profiles fuel now days id st
        ≡ Option.map (invalidated id) (prune_connected path sftp profiles fuel now days cfg base st)
  unfolding prune
  prune-ok fuel id cfg base st e = rw (e, prune) refl

  prune_base-Pruned :
      (fuel : ℕ) (cfg : Config) (base : Option String) (st : State S)
      → st.calls ≡ []
      → OnSome (Pruned base) (prune_base path sftp profiles fuel now days cfg base st)
  prune_base-Pruned fuel cfg base st none_yet =
      elim (Result-cases (resolve path sftp profiles base "")) [
        | inl (x, e) ↦ rw (prune_base-err fuel cfg base st x e) (inl (x, refl, none_yet))
        | inr (root, e) ↦ rw (prune_base-ok fuel cfg base st root e) (
            end_walk-Pruned cfg base root (walk path sftp profiles cfg now days fuel root 0 st) e (
              subst
                (λ old.
                  After path sftp profiles cfg now days root old
                    (Visited path sftp profiles cfg now days root root)
                    (walk path sftp profiles cfg now days fuel root 0 st))
                none_yet
                (walk-After path sftp profiles cfg now days root fuel root 0 st (inl refl)
                  (rw none_yet ((λ x m. elim m [ ]), refl)))))
      ]

  prune_connected-Pruned :
      (fuel : ℕ) (cfg : Config) (base : Option String) (st : State S)
      → st.calls ≡ []
      → OnSome (Pruned base) (prune_connected path sftp profiles fuel now days cfg base st)
  unfolding prune_connected
  prune_connected-Pruned fuel cfg base st none_yet =
      elim (Bool-cases (sftp.acquire cfg st.remote).0) [
        | inl e ↦ rw e (
            prune_base-Pruned fuel cfg base (record st { remote = (sftp.acquire cfg st.remote).1 })
              none_yet)
        | inr e ↦ rw e (inl (internal_error, refl, none_yet))
      ]

  invalidated-Pruned :
      (id : String) (base : Option String) (o : Option (Result ℕ × State S))
      → OnSome (Pruned base) o
      → OnSome (Pruned base) (Option.map (invalidated id) o)
  invalidated-Pruned id base none h = tt
  invalidated-Pruned id base (some (r, st)) h = h

  -- Where the profile has a connection and the record of calls is empty before, whatever the outcome of
  -- `prune`: it asked the server for no listing and no deletion and failed, or it walked from the
  -- resolved base directory. Then it asked for a listing only of that directory and of directories that
  -- it had found in a listing, it asked to delete only files that it had found in a listing and that are
  -- older than so many days, and if it returns a number, this is the number of files that were deleted,
  -- and every directory and old file of every listing was visited.
  pub prune-Pruned :
      (fuel : ℕ) (id : String) (cfg : Config) (base : Option String) (st : State S)
      (out : Result ℕ × State S)
      → st.calls ≡ []
      → conn path sftp profiles id ≡ ok (cfg, base)
      → prune path sftp profiles fuel now days id st ≡ some out
      → Pruned base out
  prune-Pruned fuel id cfg base st out none_yet there e =
      of_OnSome (Pruned base) (prune path sftp profiles fuel now days id st) out
        (rw (prune-ok fuel id cfg base st there) (
          invalidated-Pruned id base (prune_connected path sftp profiles fuel now days cfg base st)
            (prune_connected-Pruned fuel cfg base st none_yet)))
        e
