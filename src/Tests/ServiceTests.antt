-- ===== src/Tests/ServiceTests.antt =====
-- `RecordingsService` at concrete inputs: a server that shows a small tree.
use reolink_station.Prelude.{
  ℕ, suc, ◌*◌, ◌<◌, String, true, false, none, some, Option, List, [], ◌∷◌, ◌≡◌, ◌≢◌, inl, inr,
  refl, if◌then◌else◌, same_text, arith, Bool-cases, subst, ap, eq_iff, sym, In,
}
use reolink_station.Prelude.Split.{is_empty, split_at}
use reolink_station.Http.{Result, ok}
use reolink_station.Entities.{StorageConfig}
use reolink_station.CameraProfiles.{Connection}
use reolink_station.Recordings.PathSafety.{resolve_safe, resolve_in, strip_slashes, or_root}
use reolink_station.Recordings.Cache
use reolink_station.Recordings.PathSafety.Place
use reolink_station.Recordings.Service
use reolink_station.Recordings.PathSafety.Place.{
  segments, enter, place, render, rendered, starts_slash, ends_slash,
}
use reolink_station.Recordings.Remote.{
  Config, FileInfo, Sftp, State, listed, deleted, below, is_old, with_listing,
}
use reolink_station.Recordings.Service.{
  conn, conn_of, resolve, prune, delete_files, list_dir, prune_connected, prune_base, walk_items,
  call_list, call_delete,
}
use reolink_station.Recordings.Service.Prune.{Pruned, prune-Pruned}
use reolink_station.Recordings.Service.Fuel.{prune_ends}
use reolink_station.Recordings.Service.Fresh.{Forgotten, deletions-Forgotten}
use reolink_station.Tests.PlainPath.{plain_path}

abbrev plain_file : String → ℕ → FileInfo
plain_file name time = record { name = name; is_dir = false; size = 10; modify_time = time }

abbrev folder : String → FileInfo
folder name = record { name = name; is_dir = true; size = 0; modify_time = 0 }

abbrev day : ℕ
day = 24 * 60 * 60 * 1000

-- the tree: two files and a directory with one
abbrev listing : String → Option (List FileInfo)
listing dir =
    if same_text dir "/rec"
    then some (plain_file "a.mp4" 5 ∷ folder "d" ∷ plain_file "b.mp4" (9 * day) ∷ [])
    else (if same_text dir "/rec/d" then some (plain_file "c.mp4" day ∷ []) else none)

-- The server counts what it is asked for, and does not delete `c.mp4`.
abbrev pub server : Sftp ℕ
server = record {
  acquire = λ cfg n. (true, suc n);
  list = λ cfg dir n. (listing dir, suc n);
  stat = λ cfg p n. (none, suc n);
  delete = λ cfg p n. (if same_text p "/rec/d/c.mp4" then false else true, suc n);
}

abbrev storage : StorageConfig
storage = record {
  host = some "box";
  port = some 22;
  user_name = some "u";
  pass = some "p";
  base_path = some "/rec";
}

abbrev profile : Connection
profile = record { id = "p"; storage = storage; camera = record { uid = none; password = none } }

abbrev profiles : String → Result (Option Connection)
profiles id = ok (some profile)

abbrev config : Config
config = record { host = some "box"; port = some 22; user_name = some "u"; pass = some "p" }

abbrev pub start : State ℕ
start = record {
  lists = record { ttl_ms = 10; store = [] };
  stats = record { ttl_ms = 300; store = [] };
  remote = 0;
  calls = [];
}

-- The first file is deleted, the last is young, and the server does not delete the one below.
abbrev pruned : State ℕ
pruned = record start {
  remote = 5;
  calls =
      deleted "/rec/d/c.mp4" false
      ∷ listed "/rec/d" (plain_file "c.mp4" day ∷ [])
      ∷ deleted "/rec/a.mp4" true
      ∷ listed "/rec" (plain_file "a.mp4" 5 ∷ folder "d" ∷ plain_file "b.mp4" (9 * day) ∷ [])
      ∷ [];
}

root_found : resolve plain_path server profiles (some "/rec") "" ≡ ok "/rec"
unfolding resolve resolve_safe resolve_in strip_slashes or_root rendered render place Place.walk
    segments enter split_at is_empty starts_slash ends_slash
root_found = refl

connected : conn plain_path server profiles "p" ≡ ok (config, some "/rec")
unfolding conn_of
connected = refl

prune_runs : prune plain_path server profiles 2 (10 * day) 5 "p" start ≡ some (ok 1, pruned)
unfolding prune conn_of prune_connected prune_base resolve resolve_safe resolve_in strip_slashes
    or_root rendered render place Place.walk segments enter split_at is_empty starts_slash
    ends_slash Service.walk walk_items call_list call_delete is_old with_listing Cache.invalidate
prune_runs = refl

prune-Pruned_example : Pruned plain_path server profiles (10 * day) 5 (some "/rec") (ok 1, pruned)
prune-Pruned_example =
    prune-Pruned plain_path server profiles (10 * day) 5 2 "p" config (some "/rec") start
      (ok 1, pruned) refl connected prune_runs

abbrev depth : String → ℕ
depth d = if same_text d "/rec" then 1 else 0

deeper_root :
    (i : FileInfo)
    → In i (plain_file "a.mp4" 5 ∷ folder "d" ∷ plain_file "b.mp4" (9 * day) ∷ [])
    → i.is_dir ≡ true
    → depth (below "/rec" i.name) < 1
deeper_root i (inl e) d = cc (ap (λ x. x.is_dir) e, d)
deeper_root i (inr (inl e)) d = subst (λ x. depth (below "/rec" x.name) < 1) (sym e) (omega arith)
deeper_root i (inr (inr (inl e))) d = cc (ap (λ x. x.is_dir) e, d)
deeper_root i (inr (inr (inr x))) d = elim x [ ]

no_folder : (i : FileInfo) → In i (plain_file "c.mp4" day ∷ []) → i.is_dir ≡ true → ⊥
no_folder i (inl e) d = cc (ap (λ x. x.is_dir) e, d)
no_folder i (inr x) d = elim x [ ]

deeper :
    (dir : String) (items : List FileInfo) (i : FileInfo)
    → listing dir ≡ some items
    → In i items
    → i.is_dir ≡ true
    → depth (below dir i.name) < depth dir
deeper dir items i e m d = elim (Bool-cases (same_text dir "/rec")) [
  | inl top ↦
      let root : dir ≡ "/rec" = (eq_iff dir "/rec").0 top in
      let same : items ≡ plain_file "a.mp4" 5 ∷ folder "d" ∷ plain_file "b.mp4" (9 * day) ∷ [] =
        cc (rw top at e) in
      let here = deeper_root i (subst (In i) same m) d in
      subst (λ x. depth (below x i.name) < depth x) (sym root) here
  | inr other ↦ elim (Bool-cases (same_text dir "/rec/d")) [
    | inl one ↦
        let same : items ≡ plain_file "c.mp4" day ∷ [] = cc (rw (other, one) at e) in
        absurd (no_folder i (subst (In i) same m) d)
    | inr no_dir ↦ cc (rw (other, no_dir) at e)
  ]
]

prune_ends_example : prune plain_path server profiles 2 (10 * day) 5 "p" start ≢ none
prune_ends_example =
    prune_ends plain_path server profiles (10 * day) 5 2 "p" config (some "/rec") start depth
      (λ remote dir items i e m d. deeper dir items i e m d) connected (λ root e. ground arith)

deletions-Forgotten_example :
    Forgotten plain_path server profiles "p" start
      (delete_files plain_path server profiles "p" ("a.mp4" ∷ []) start)
    × ((out : Result ℕ × State ℕ)
        → prune plain_path server profiles 2 (10 * day) 5 "p" start ≡ some out
        → Forgotten plain_path server profiles "p" start out)
deletions-Forgotten_example =
    deletions-Forgotten plain_path server profiles 2 (10 * day) 5 "p" ("a.mp4" ∷ []) start
