-- ===== src/Recordings/Service.antt =====
-- src/recordings/recordings.service.ts: `RecordingsService`. The SFTP servers are a parameter whose
-- operations pass a state on (Remote.antt). `walk` of `prune` runs on fuel. The log messages are left
-- out.
pub mod Log
pub mod Walk
pub mod Prune
pub mod Fuel
pub mod Fresh
use Prim.Native.Char.{Char, code}
use Prim.Native.String
use reolink_station.Prelude.{
  ℕ, zero, suc, ◌+◌, ◌*◌, String, Bool, true, false, ◌&&◌, Option, none, some, List, [], ◌∷◌, ◌≡◌,
  map, ltb, ◌==◌, join_text, if◌then◌else◌,
}
use mathlib.Core.Option as Option
use reolink_station.Prelude.Split.{is_empty}
use reolink_station.Http.{Result, ok, err, not_found, internal_error}
use reolink_station.CameraProfiles.{Connection}
use reolink_station.Recordings.Cache
use reolink_station.Recordings.Cache.{TtlCache}
use reolink_station.Recordings.PathSafety.{PosixPath, given, resolve_safe, strip_slashes}
use reolink_station.Recordings.Response.{RangeSpec}
use reolink_station.Recordings.Remote.{
  Config, FileInfo, Stat, RecordingEntry, Sftp, SftpCall, State, strip_front, rel_join, entry_of,
  below, id_prefix, cache_key, is_old, with_listing, listed, deleted,
}
use reolink_station.Recordings.WindowedRead.{Reader, windowed_read}

-- How a walk ends: without fuel, by an exception, or with the number of deleted files.
pub data Walked (S : Type 0) : Type 0 where
  out_of_fuel : Walked S
  threw : State S → Walked S
  finished : ℕ → State S → Walked S

-- `await walk(full)`, and what comes behind it
abbrev pub and_walk : {S : Type 0} → Walked S → (ℕ → State S → Walked S) → Walked S
and_walk out_of_fuel k = out_of_fuel
and_walk (threw st) k = threw st
and_walk (finished n st) k = k n st

-- what the callback of the connection makes of the walk; `none` without fuel
abbrev pub end_walk : {S : Type 0} → Walked S → Option (Result ℕ × State S)
end_walk out_of_fuel = none
end_walk (threw st) = some (err internal_error, st)
end_walk (finished n st) = some (ok n, st)

-- `await`
abbrev pub and_then :
    {S A B : Type 0} → Result A → State S → (A → Result B × State S) → Result B × State S
and_then (err e) st k = (err e, st)
and_then (ok a) st k = k a

-- the `finally` of `deleteFiles` and `prune`
abbrev pub invalidated : {S A : Type 0} → String → A × State S → A × State S
invalidated id (r, st) = (
  r,
  record st {
    lists = Cache.invalidate (id_prefix id) st.lists;
    stats = Cache.invalidate (id_prefix id) st.stats;
  },
)

-- `listCache.set` and `statCache.set`, which an exception passes by
unfoldable pub store_list :
    {S : Type 0}
    → String
    → ℕ
    → Result (List RecordingEntry) × State S
    → Result (List RecordingEntry) × State S
store_list key later (err e, st) = (err e, st)
store_list key later (ok entries, st) =
    (ok entries, record st { lists = Cache.set key entries later st.lists })

unfoldable pub store_stat :
    {S : Type 0} → String → ℕ → Result Stat × State S → Result Stat × State S
store_stat key later (err e, st) = (err e, st)
store_stat key later (ok s, st) = (ok s, record st { stats = Cache.set key s later st.stats })

-- `profiles` is what `findOneDecryptedForConnection` returns for an id.
module _ {S : Type 0} (path : PosixPath) (sftp : Sftp S)
    (profiles : String → Result (Option Connection)) where
  unfoldable pub conn_of : Result (Option Connection) → Result (Config × Option String)
  conn_of (err e) = err e
  conn_of (ok none) = err internal_error
  conn_of (ok (some p)) = ok (
    record {
      host = p.storage.host;
      port = p.storage.port;
      user_name = p.storage.user_name;
      pass = p.storage.pass;
    },
    p.storage.base_path,
  )

  abbrev pub conn : String → Result (Config × Option String)
  conn id = conn_of (profiles id)

  -- `resolveSafe`, which throws a TypeError without a base path
  unfoldable pub resolve : Option String → String → Result String
  resolve none rel = err internal_error
  resolve (some base) rel = resolve_safe path base (given rel)

  unfoldable pub resolve_all : Option String → List String → Result (List String)
  unfolding resolve
  resolve_all base [] = ok []
  resolve_all base (r ∷ rels) =
      let rest = resolve_all base rels in
      elim (resolve base r) [
        | err e ↦ err e
        | ok abs ↦ elim rest [ err e ↦ err e | ok abses ↦ ok (abs ∷ abses) ]
      ]

  unfoldable pub with_connection :
      {A : Type 0} → Config → (State S → Result A × State S) → State S → Result A × State S
  with_connection cfg f st =
      let (got, remote) = sftp.acquire cfg st.remote in
      if got
      then f (record st { remote = remote })
      else (err internal_error, record st { remote = remote })

  unfoldable pub call_list : Config → String → State S → Option (List FileInfo) × State S
  call_list cfg dir st =
      let (answer, remote) = sftp.list cfg dir st.remote in
      (answer, record st { remote = remote; calls = with_listing dir answer st.calls })

  unfoldable pub call_delete : Config → String → State S → Bool × State S
  call_delete cfg p st =
      let (done, remote) = sftp.delete cfg p st.remote in
      (done, record st { remote = remote; calls = deleted p done ∷ st.calls })

  -- the body of the connection in `listDir`
  unfoldable pub list_remote :
      Config → String → String → State S → Result (List RecordingEntry) × State S
  unfolding call_list
  list_remote cfg dir abs st =
      let (answer, st') = call_list cfg abs st in
      elim answer [
        | none ↦ (err internal_error, st')
        | some items ↦ (ok (map (entry_of dir) items), st')
      ]

  -- behind the lookup in the cache; `later` is the time of the store
  unfoldable pub list_fresh : ℕ → String → String → State S → Result (List RecordingEntry) × State S
  unfolding list_remote with_connection
  list_fresh later id dir st = and_then (conn id) st (λ c. and_then (resolve c.1 dir) st (λ abs.
      store_list (cache_key id dir) later (with_connection c.0 (list_remote c.0 dir abs) st)))

  unfoldable pub list_dir :
      ℕ → ℕ → String → String → State S → Result (List RecordingEntry) × State S
  unfolding list_fresh
  list_dir now later id dir st =
      let (cached, lists) = Cache.get (cache_key id dir) now st.lists in
      elim cached [
        | some entries ↦ (ok entries, record st { lists = lists })
        | none ↦ list_fresh later id dir (record st { lists = lists })
      ]

  unfoldable pub stat_remote : Config → String → State S → Result Stat × State S
  stat_remote cfg abs st =
      let (answer, remote) = sftp.stat cfg abs st.remote in
      elim answer [
        | none ↦ (err not_found, record st { remote = remote })
        | some s ↦ (ok s, record st { remote = remote })
      ]

  unfoldable pub stat_fresh : ℕ → String → String → State S → Result Stat × State S
  unfolding stat_remote with_connection
  stat_fresh later id rel st = and_then (conn id) st (λ c.
      and_then (resolve c.1 rel) st
        (λ abs. store_stat (cache_key id rel) later (with_connection c.0 (stat_remote c.0 abs) st)))

  unfoldable pub stat : ℕ → ℕ → String → String → State S → Result Stat × State S
  unfolding stat_fresh
  stat now later id rel st =
      let (cached, stats) = Cache.get (cache_key id rel) now st.stats in
      elim cached [
        | some s ↦ (ok s, record st { stats = stats })
        | none ↦ stat_fresh later id rel (record st { stats = stats })
      ]

  -- as far as the reader of the transfer begins
  unfoldable pub stream_to :
      (ℕ → Bool) → String → String → RangeSpec → State S → Result Reader × State S
  unfolding with_connection
  stream_to accepts id rel range st = and_then (conn id) st (λ c.
      and_then (resolve c.1 rel) st (λ abs.
        with_connection c.0 (λ st'. (ok (windowed_read range.start range.stop accepts), st')) st))

  unfoldable pub delete_loop : Config → List String → ℕ → State S → Result ℕ × State S
  unfolding call_delete
  delete_loop cfg [] n st = (ok n, st)
  delete_loop cfg (p ∷ ps) n st =
      let (done, st') = call_delete cfg p st in delete_loop cfg ps (if done then n + 1 else n) st'

  unfoldable pub delete_files : String → List String → State S → Result ℕ × State S
  unfolding resolve_all with_connection delete_loop
  delete_files id rels st = and_then (conn id) st (λ c.
      and_then (resolve_all c.1 rels) st
        (λ abses. invalidated id (with_connection c.0 (delete_loop c.0 abses 0) st)))

  -- The loop of `walk` over the items of a directory. `sub` is `walk` on one of them, and the
  -- number is `deleted`.
  unfoldable pub walk_items :
      Config
      → ℕ
      → ℕ
      → (String → ℕ → State S → Walked S)
      → String
      → List FileInfo
      → ℕ
      → State S
      → Walked S
  unfolding call_delete is_old
  walk_items cfg now days sub dir [] n st = finished n st
  walk_items cfg now days sub dir (i ∷ items) n st = elim i.is_dir [
    | true ↦
        and_walk (sub (below dir i.name) n st)
          (λ n' st'. walk_items cfg now days sub dir items n' st')
    | false ↦ elim (is_old now days i) [
      | true ↦
          let (done, st') = call_delete cfg (below dir i.name) st in
          walk_items cfg now days sub dir items (if done then n + 1 else n) st'
      | false ↦ walk_items cfg now days sub dir items n st
    ]
  ]

  unfoldable pub walk : Config → ℕ → ℕ → ℕ → String → ℕ → State S → Walked S
  unfolding call_list walk_items
  walk cfg now days zero dir n st = out_of_fuel
  walk cfg now days (suc fuel) dir n st =
      let (answer, st') = call_list cfg dir st in
      elim answer [
        | none ↦ threw st'
        | some items ↦ walk_items cfg now days (walk cfg now days fuel) dir items n st'
      ]

  -- in the connection, from the base directory on
  unfoldable pub prune_base :
      ℕ → ℕ → ℕ → Config → Option String → State S → Option (Result ℕ × State S)
  unfolding resolve walk
  prune_base fuel now days cfg base st = elim (resolve base "") [
    | err e ↦ some (err e, st)
    | ok root ↦ end_walk (walk cfg now days fuel root 0 st)
  ]

  unfoldable pub prune_connected :
      ℕ → ℕ → ℕ → Config → Option String → State S → Option (Result ℕ × State S)
  unfolding prune_base
  prune_connected fuel now days cfg base st =
      let (got, remote) = sftp.acquire cfg st.remote in
      if got
      then prune_base fuel now days cfg base (record st { remote = remote })
      else some (err internal_error, record st { remote = remote })

  unfoldable pub prune : ℕ → ℕ → ℕ → String → State S → Option (Result ℕ × State S)
  unfolding prune_connected
  prune fuel now days id st = elim (conn id) [
    | err e ↦ some (err e, st)
    | ok c ↦ Option.map (invalidated id) (prune_connected fuel now days c.0 c.1 st)
  ]
