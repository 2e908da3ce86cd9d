-- ===== src/Recordings/Pools/Isolation.antt =====
-- A pool connects with the configuration that it was asked for.
use mathlib.Core.Option as Option
use reolink_station.Prelude.{
  ℕ, ◌+◌, map, eq_refl, String, true, false, none, some, List, [], ◌∷◌, ◌++◌, ◌≡◌, inl, inr, refl,
  sym, ap, ◌∙◌, join_text, same_text, eq_iff, Bool-cases, Option-cases, if_true, if_false,
}
use reolink_station.Prelude.JsMap
use reolink_station.Prelude.JsMap.{JsMap, text_key}
use reolink_station.Prelude.Split.{split_at, is_free, split_at-append, split_at-is_free}
use reolink_station.Recordings.Remote.{Config}
use reolink_station.Recordings.Pools.{
  Pool, PoolService, no_pools, colon, text_of, client_config, on_module_destroy, key_of, key,
  pool_for, Call, used, destroyed, run,
}

module _ (digest : String → String) (show : ℕ → String) where
  -- No part of the key but its separators has a colon.
  abbrev pub IsPlain : Config → Type 0
  IsPlain c =
      (is_free b':' (text_of c.host) ≡ true)
      × (is_free b':' (text_of (Option.map show c.port)) ≡ true)
      × (is_free b':' (text_of c.user_name) ≡ true)
      × ((pass : String) → is_free b':' (digest pass) ≡ true)

  -- The same server and account, and a password of the same digest.
  abbrev pub Same : Config → Config → Type 0
  Same c d =
      (text_of c.host ≡ text_of d.host)
      × (text_of (Option.map show c.port) ≡ text_of (Option.map show d.port))
      × (text_of c.user_name ≡ text_of d.user_name)
      × (Option.map digest c.pass ≡ Option.map digest d.pass)

  first_part :
      (a t : String)
      → is_free b':' a ≡ true
      → split_at b':' (join_text a (String.◌∷◌ colon t)) ≡ a ∷ split_at b':' t
  first_part a t h =
      split_at-append colon a t ∙ ap (λ xs. xs ++ split_at b':' t) (split_at-is_free b':' a h)

  key_of-parts :
      (c : Config) (tag : String)
      → IsPlain c
      → is_free b':' tag ≡ true
      → split_at b':' (key_of digest show c tag)
        ≡ text_of c.host ∷ text_of (Option.map show c.port) ∷ text_of c.user_name ∷ tag ∷ []
  key_of-parts c tag (h, p, u, d) t =
      first_part (text_of c.host) _ h
      ∙ ap (λ xs. text_of c.host ∷ xs)
          (first_part (text_of (Option.map show c.port)) _ p
            ∙ ap (λ xs. text_of (Option.map show c.port) ∷ xs)
                (first_part (text_of c.user_name) tag u
                  ∙ ap (λ xs. text_of c.user_name ∷ xs) (split_at-is_free b':' tag t)))

  key-cases :
      (c : Config) (k : String)
      → key digest show c ≡ some k
      → (pass : String) × (c.pass ≡ some pass) × (k ≡ key_of digest show c (digest pass))
  unfolding key
  key-cases c k e = elim (Option-cases c.pass) [
    | inl missing ↦ cc (rw missing at e)
    | inr (pass, given) ↦
        let same : some (key_of digest show c (digest pass)) ≡ some k = rw given at e in
        (pass, given, sym (cc same))
  ]

  key-Same :
      (c d : Config) (k : String)
      → IsPlain c
      → IsPlain d
      → key digest show c ≡ some k
      → key digest show d ≡ some k
      → Same c d
  key-Same c d k pc pd e f =
      let (pass, given, kc) = key-cases c k e in
      let (pass', given', kd) = key-cases d k f in
      let parts =
        sym (key_of-parts c (digest pass) pc (pc.3 pass))
        ∙ ap (split_at b':') (sym kc ∙ kd)
        ∙ key_of-parts d (digest pass') pd (pd.3 pass') in
      (cc parts, cc parts, cc parts, rw (given, given') (ap some (cc parts)))

  -- Every pool has a configuration of its key.
  abbrev IsServed : PoolService → String → Pool → Type 0
  IsServed st k p =
      (p.key ≡ k)
      × ((cfg : Config) × (JsMap.get k st.cfgs ≡ some cfg)
          × (key digest show cfg ≡ some k)
          × IsPlain cfg)

  abbrev Inv : PoolService → Type 0
  Inv st = (k : String) (p : Pool) → JsMap.get k st.pools ≡ some p → IsServed st k p

  empty_maps : (st : PoolService) → st.pools ≡ [] → Inv st
  unfolding JsMap.get
  empty_maps st none_there k p m = cc (rw none_there at m)

  -- What is in the maps stays there.
  abbrev Kept : PoolService → PoolService → Type 0
  Kept st st' =
      (k : String) (p : Pool) (c : Config)
      → JsMap.get k st.pools ≡ some p
      → JsMap.get k st.cfgs ≡ some c
      → (JsMap.get k st'.pools ≡ some p) × (JsMap.get k st'.cfgs ≡ some c)

  set-here :
      {V : Type 0} (k j : String) (v : V) (m : JsMap String V)
      → same_text k j ≡ true
      → JsMap.get j (JsMap.set k v m) ≡ some v
  set-here k j v m h = JsMap.get-set k j v m ∙ if_true _ _ _ h

  set-elsewhere :
      {V : Type 0} (k j : String) (v : V) (m : JsMap String V)
      → same_text k j ≡ false
      → JsMap.get j (JsMap.set k v m) ≡ JsMap.get j m
  set-elsewhere k j v m h = JsMap.get-set k j v m ∙ if_false _ _ _ h

  -- where a pool is asked for
  abbrev fresh_pool : PoolService → String → Pool
  fresh_pool st k = record { number = st.created; key = k }

  abbrev with_pool : PoolService → String → Config → PoolService
  with_pool st k cfg = record st {
    cfgs = JsMap.set k cfg st.cfgs;
    pools = JsMap.set k (fresh_pool st k) st.pools;
    created = st.created + 1;
  }

  module _ (st : PoolService) (cfg : Config) where
    pool_for-none : key digest show cfg ≡ none → pool_for digest show cfg st ≡ (none, st)
    unfolding pool_for
    pool_for-none e = rw (e, pool_for) refl

    module _ (k : String) (e : key digest show cfg ≡ some k) where
      pool_for-old :
          (p : Pool) → JsMap.get k st.pools ≡ some p → pool_for digest show cfg st ≡ (some p, st)
      unfolding pool_for
      pool_for-old p f = rw (e, f, pool_for) refl

      pool_for-new :
          JsMap.get k st.pools ≡ none
          → pool_for digest show cfg st ≡ (some (fresh_pool st k), with_pool st k cfg)
      unfolding pool_for
      pool_for-new f = rw (e, f, pool_for) refl

      with_pool-Inv : IsPlain cfg → Inv st → Inv (with_pool st k cfg)
      with_pool-Inv plain inv j p m = elim (Bool-cases (same_text k j)) [
        | inl same ↦
            let at : k ≡ j = (eq_iff k j).0 same in
            let row : fresh_pool st k ≡ p = cc (m, set-here k j (fresh_pool st k) st.pools same) in
            (
              sym (ap (λ (x : Pool). x.key) row) ∙ at,
              (cfg, set-here k j cfg st.cfgs same, e ∙ ap some at, plain),
            )
        | inr other ↦
            let (at, (c, f, g, h)) =
              inv j p (sym (set-elsewhere k j (fresh_pool st k) st.pools other) ∙ m) in
            (at, (c, set-elsewhere k j cfg st.cfgs other ∙ f, g, h))
      ]

      with_pool-Kept : JsMap.get k st.pools ≡ none → Kept st (with_pool st k cfg)
      with_pool-Kept absent j p c f g = elim (Bool-cases (same_text k j)) [
        | inl same ↦
            let at : k ≡ j = (eq_iff k j).0 same in
            cc (absent, ap (λ x. JsMap.get x st.pools) at, f)
        | inr other ↦ (
          set-elsewhere k j (fresh_pool st k) st.pools other ∙ f,
          set-elsewhere k j cfg st.cfgs other ∙ g,
        )
      ]

    pool_for-Inv : IsPlain cfg → Inv st → Inv (pool_for digest show cfg st).1
    pool_for-Inv plain inv = elim (Option-cases (key digest show cfg)) [
      | inl e ↦ rw (pool_for-none e) inv
      | inr (k, e) ↦ elim (Option-cases (JsMap.get k st.pools)) [
        | inr (p, f) ↦ rw (pool_for-old k e p f) inv
        | inl f ↦ rw (pool_for-new k e f) (with_pool-Inv k e plain inv)
      ]
    ]

    pool_for-Kept : Kept st (pool_for digest show cfg st).1
    pool_for-Kept = elim (Option-cases (key digest show cfg)) [
      | inl e ↦ rw (pool_for-none e) (λ j p c f g. (f, g))
      | inr (k, e) ↦ elim (Option-cases (JsMap.get k st.pools)) [
        | inr (p, f) ↦ rw (pool_for-old k e p f) (λ j p c f g. (f, g))
        | inl f ↦ rw (pool_for-new k e f) (with_pool-Kept k e f)
      ]
    ]

    -- the pool that is given out is in the map, under the key
    pool_for-held :
        (p : Pool)
        → (pool_for digest show cfg st).0 ≡ some p
        → (k : String) × (key digest show cfg ≡ some k)
          × (JsMap.get k (pool_for digest show cfg st).1.pools ≡ some p)
    pool_for-held p given = elim (Option-cases (key digest show cfg)) [
      | inl e ↦ cc (rw (pool_for-none e) at given)
      | inr (k, e) ↦ elim (Option-cases (JsMap.get k st.pools)) [
        | inr (q, f) ↦ (k, e, rw (pool_for-old k e q f) (f ∙ rw (pool_for-old k e q f) at given))
        | inl f ↦ (
          k,
          e,
          rw (pool_for-new k e f) (
              set-here k k (fresh_pool st k) st.pools (eq_refl k)
              ∙ rw (pool_for-new k e f) at given),
        )
      ]
    ]

  abbrev pub UsesPlain : List Call → Type 0
  UsesPlain [] = Unit {0}
  UsesPlain (used cfg ∷ calls) = IsPlain cfg × UsesPlain calls
  UsesPlain (destroyed ∷ calls) = UsesPlain calls

  run-Inv :
      (calls : List Call) (st : PoolService)
      → UsesPlain calls
      → Inv st
      → Inv (run digest show calls st)
  unfolding run
  run-Inv [] st u inv = inv
  run-Inv (used cfg ∷ calls) st (plain, u) inv =
      run-Inv calls (pool_for digest show cfg st).1 u (pool_for-Inv st cfg plain inv)
  run-Inv (destroyed ∷ calls) st u inv =
      run-Inv calls (on_module_destroy st) u (empty_maps (on_module_destroy st) refl)

  uses-Kept :
      (later : List Config) (st : PoolService) → Kept st (run digest show (map used later) st)
  unfolding run
  uses-Kept [] st j p c f g = (f, g)
  uses-Kept (cfg ∷ later) st j p c f g =
      let (f', g') = pool_for-Kept st cfg j p c f g in
      uses-Kept later (pool_for digest show cfg st).1 j p c f' g'

  -- After any calls, a pool that is given out for a configuration connects, until the service is
  -- destroyed and whatever is asked for meanwhile, with a configuration of the same server, account and
  -- digest of the password, where no part of the keys of these calls has a colon.
  pub pool_for-Same :
      (before : List Call) (cfg : Config) (later : List Config) (p : Pool)
      → UsesPlain before
      → IsPlain cfg
      → (pool_for digest show cfg (run digest show before no_pools)).0 ≡ some p
      → (c : Config) × (client_config p (
            run digest show
              (map used later)
              (pool_for digest show cfg (run digest show before no_pools)).1)
          ≡ some c)
        × Same c cfg
  pool_for-Same before cfg later p u plain given =
      let st = run digest show before no_pools in
      let inv = pool_for-Inv st cfg plain (run-Inv before no_pools u (empty_maps no_pools refl)) in
      let (k, e, held) = pool_for-held st cfg p given in
      let (at, (c, f, g, h)) = inv k p held in
      let kept = uses-Kept later (pool_for digest show cfg st).1 k p c held f in
      (
        c,
        (ap
              (λ x.
                JsMap.get x (run digest show (map used later) (pool_for digest show cfg st).1).cfgs)
              at
            ∙ kept.1),
        key-Same c cfg k h plain g e,
      )
