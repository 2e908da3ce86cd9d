-- ===== src/Recordings/Cache.antt =====
-- src/recordings/recordings.cache.ts: `TtlCache`. The time, `Date.now()`, is an argument.
pub mod History
use mathlib.Core.List.{foldl}
use text.Mathlib.Text.{starts_with}
use reolink_station.Prelude.{
  ℕ, ◌+◌, String, Bool, Option, none, some, List, [], ◌∷◌, map, ltb, if◌then◌else◌,
}
use reolink_station.Prelude.JsMap
use reolink_station.Prelude.JsMap.{JsMap, text_key}

pub record Entry (T : Type 0) : Type 0 where
  pub val : T
  pub exp : ℕ

pub record TtlCache (T : Type 0) : Type 0 where
  pub ttl_ms : ℕ
  pub store : JsMap String (Entry T)

module _ {T : Type 0} where
  -- An expired entry is dropped on the way.
  unfoldable pub get : String → ℕ → TtlCache T → Option T × TtlCache T
  get key now c = elim (JsMap.get key c.store) [
    | none ↦ (none, c)
    | some e ↦
        if ltb e.exp now
        then (none, record c { store = JsMap.remove key c.store })
        else (some e.val, c)
  ]

  unfoldable pub set : String → T → ℕ → TtlCache T → TtlCache T
  set key val now c = record c {
    store = JsMap.set key (record { val = val; exp = now + c.ttl_ms }) c.store;
  }

  -- the body of the loop of `invalidate`
  unfoldable pub drop_prefixed : String → JsMap String (Entry T) → String → JsMap String (Entry T)
  drop_prefixed prefix store k = if starts_with k prefix then JsMap.remove k store else store

  unfoldable pub invalidate : String → TtlCache T → TtlCache T
  unfolding drop_prefixed
  invalidate prefix c = record c {
    store = foldl (drop_prefixed prefix) c.store (map (λ kv. kv.0) c.store);
  }
