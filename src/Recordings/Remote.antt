-- ===== src/Recordings/Remote.antt =====
-- What src/recordings/recordings.service.ts asks the SFTP servers for, which are a parameter, and the
-- state that it keeps. `calls` is a record of the listings and deletions that were asked for, those
-- that failed too, the last first.
use Prim.Native.Char.{code}
use reolink_station.Prelude.{
  ℕ, ◌+◌, ◌*◌, String, Bool, Option, none, some, List, ◌∷◌, ltb, ◌==◌, join_text, if◌then◌else◌,
}
use reolink_station.Prelude.Split.{is_empty}
use reolink_station.Recordings.Cache.{TtlCache}
use reolink_station.Recordings.PathSafety.{strip_slashes}

pub record Config : Type 0 where
  pub host : Option String
  pub port : Option ℕ
  pub user_name : Option String
  pub pass : Option String

-- what ssh2-sftp-client lists and stats
pub record FileInfo : Type 0 where
  pub name : String
  pub is_dir : Bool
  pub size : ℕ
  pub modify_time : ℕ

pub record Stat : Type 0 where
  pub size : ℕ
  pub mtime : ℕ

pub record RecordingEntry : Type 0 where
  pub name : String
  pub path : String
  pub is_dir : Bool
  pub size : ℕ
  pub mtime : ℕ

-- The pools and the servers behind them. `acquire` says whether a connection was got, and each of
-- the others gives `none` or `false` where the call throws.
pub record Sftp (S : Type 0) : Type 0 where
  pub acquire : Config → S → Bool × S
  pub list : Config → String → S → Option (List FileInfo) × S
  pub stat : Config → String → S → Option Stat × S
  pub delete : Config → String → S → Bool × S

-- A directory that was listed, one whose listing failed, and a path that was to be deleted, with the
-- success.
pub data SftpCall : Type 0 where
  listed : String → List FileInfo → SftpCall
  list_failed : String → SftpCall
  deleted : String → Bool → SftpCall

pub record State (S : Type 0) : Type 0 where
  pub lists : TtlCache (List RecordingEntry)
  pub stats : TtlCache Stat
  pub remote : S
  pub calls : List SftpCall

-- `dir.replace(/^\/+|\/+$/g, '')`
unfoldable pub strip_front : String → String
strip_front String.[] = ""
strip_front (String.◌∷◌ c s) =
    let rest = strip_front s in if code c == b'/' then rest else String.◌∷◌ c s

unfoldable pub rel_join : String → String → String
unfolding strip_front strip_slashes
rel_join dir name =
    let d = strip_slashes (strip_front dir) in
    if is_empty d then name else join_text d (join_text "/" name)

abbrev pub entry_of : String → FileInfo → RecordingEntry
entry_of dir i = record {
  name = i.name;
  path = rel_join dir i.name;
  is_dir = i.is_dir;
  size = i.size;
  mtime = i.modify_time;
}

-- `${dir}/${name}`
abbrev pub below : String → String → String
below dir name = join_text dir (join_text "/" name)

-- `${profileId}:`, and the keys of the caches
abbrev pub id_prefix : String → String
id_prefix id = join_text id ":"

abbrev pub cache_key : String → String → String
cache_key id rel = join_text (id_prefix id) rel

-- `modifyTime < cutoff`, where the cutoff is so many days before now
unfoldable pub is_old : ℕ → ℕ → FileInfo → Bool
is_old now days i = ltb (i.modify_time + days * (24 * 60 * 60 * 1000)) now

unfoldable pub with_listing : String → Option (List FileInfo) → List SftpCall → List SftpCall
with_listing dir none calls = list_failed dir ∷ calls
with_listing dir (some items) calls = listed dir items ∷ calls
