-- ===== src/Recordings/Pools.antt =====
-- src/recordings/sftp-pool.service.ts: `SftpPoolService`, which keeps a pool of connections for each
-- server and account. A pool of generic-pool is what its factory closes over, the key, with a number
-- for the object. `digest` is the start of the SHA-256 of a password, `show` the text of a number.
pub mod Isolation
use Prim.Native.Char.{Char}
use Prim.Native.String
use mathlib.Core.Option as Option
use reolink_station.Prelude.{
  ℕ, suc, ◌+◌, String, Option, none, some, List, [], ◌∷◌, ◌++◌, map, join_text,
}
use reolink_station.Prelude.JsMap
use reolink_station.Prelude.JsMap.{JsMap, text_key}
use reolink_station.Recordings.Remote.{Config}

pub record Pool : Type 0 where
  pub number : ℕ
  pub key : String

-- `drained` are the pools that were emptied.
pub record PoolService : Type 0 where
  pub pools : JsMap String Pool
  pub cfgs : JsMap String Config
  pub created : ℕ
  pub drained : List Pool

abbrev pub no_pools : PoolService
no_pools = record { pools = []; cfgs = []; created = 0; drained = [] }

abbrev pub colon : Char
colon = ":"

-- A field in a template. The columns are JSON, and a profile is created with all of its fields, so one
-- without a value is `null`.
abbrev pub text_of : Option String → String
text_of none = "null"
text_of (some t) = t

-- `this.cfgs.get(k)!`, which `create` of the factory connects with
abbrev pub client_config : Pool → PoolService → Option Config
client_config p st = JsMap.get p.key st.cfgs

-- `drain` and `clear` of every pool
abbrev pub on_module_destroy : PoolService → PoolService
on_module_destroy st = record st {
  pools = [];
  cfgs = [];
  drained = map (λ kv. kv.1) st.pools ++ st.drained;
}

module _ (digest : String → String) (show : ℕ → String) where
  -- `${c.host}:${c.port}:${c.user}:${passTag}`
  abbrev pub key_of : Config → String → String
  key_of c tag = join_text (text_of c.host) (
      String.◌∷◌ colon (
        join_text (text_of (Option.map show c.port))
          (String.◌∷◌ colon (join_text (text_of c.user_name) (String.◌∷◌ colon tag)))))

  -- `none` without a password: `update` throws
  unfoldable pub key : Config → Option String
  key c = elim c.pass [ none ↦ none | some pass ↦ some (key_of c (digest pass)) ]

  unfoldable pub pool_for : Config → PoolService → Option Pool × PoolService
  unfolding key
  pool_for cfg st = elim (key cfg) [
    | none ↦ (none, st)
    | some k ↦ elim (JsMap.get k st.pools) [
      | some p ↦ (some p, st)
      | none ↦
          let p : Pool = record { number = st.created; key = k } in
          (
            some p,
            record st {
              cfgs = JsMap.set k cfg st.cfgs;
              pools = JsMap.set k p st.pools;
              created = st.created + 1;
            },
          )
    ]
  ]

-- The calls that change the service.
pub data Call : Type 0 where
  used : Config → Call
  destroyed : Call

module _ (digest : String → String) (show : ℕ → String) where
  unfoldable pub run : List Call → PoolService → PoolService
  unfolding pool_for
  run [] st = st
  run (used cfg ∷ calls) st = run calls (pool_for digest show cfg st).1
  run (destroyed ∷ calls) st = run calls (on_module_destroy st)
