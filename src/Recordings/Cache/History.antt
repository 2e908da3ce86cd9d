-- ===== src/Recordings/Cache/History.antt =====
-- What the cache answers, by the history of its calls.
use mathlib.Core.List.{foldl}
use text.Mathlib.Text.{starts_with}
use reolink_station.Prelude.{
  ℕ, ◌+◌, ◌≤◌, String, true, false, Option, none, some, List, [], ◌∷◌, map, ltb, if◌then◌else◌, ◌≡◌,
  ◌⊎◌, inl, inr, refl, ap, sym, ◌∙◌, arith, In, eq_iff, same_text, Bool-cases, Option-cases,
  if_true, if_false,
}
use reolink_station.Prelude.JsMap
use reolink_station.Prelude.JsMap.{JsMap, text_key}
use reolink_station.Recordings.Cache.{Entry, TtlCache, get, set, drop_prefixed, invalidate}

-- A call of the cache.
pub data Call (T : Type 0) : Type 0 where
  look : String → Call T
  put : String → T → Call T
  drop : String → Call T

module _ {T : Type 0} where
  abbrev keys : JsMap String (Entry T) → List String
  keys = map (λ kv. kv.0)

  get-In_keys :
      (j : String) (m : JsMap String (Entry T)) (v : Entry T)
      → JsMap.get j m ≡ some v
      → In j (keys m)
  unfolding JsMap.get
  get-In_keys j [] v h = cc
  get-In_keys j ((k, w) ∷ m) v h = elim (Bool-cases (same_text k j)) [
    | inl e ↦ inl (sym ((eq_iff k j).0 e))
    | inr e ↦ inr (get-In_keys j m v (sym (if_false _ _ _ e) ∙ h))
  ]

  -- the body of the loop of `invalidate`
  module _ (prefix k j : String) (m : JsMap String (Entry T)) where
    drop-kept :
        starts_with j prefix ≡ false → JsMap.get j (drop_prefixed prefix m k) ≡ JsMap.get j m
    unfolding drop_prefixed
    drop-kept h = elim (Bool-cases (starts_with k prefix)) [
      | inr other ↦ rw other
      | inl gone ↦ elim (Bool-cases (same_text k j)) [
        | inl e ↦
            let same : starts_with k prefix ≡ starts_with j prefix =
              ap (λ t. starts_with t prefix) ((eq_iff k j).0 e) in
            cc (same, gone, h)
        | inr e ↦ rw gone (JsMap.get-remove k j m ∙ if_false _ _ _ e)
      ]
    ]

    drop-absent : JsMap.get j m ≡ none → JsMap.get j (drop_prefixed prefix m k) ≡ none
    unfolding drop_prefixed
    drop-absent h = elim (Bool-cases (starts_with k prefix)) [
      | inr other ↦ rw other h
      | inl gone ↦ elim (Bool-cases (same_text k j)) [
        | inl e ↦ rw gone (JsMap.get-remove k j m ∙ if_true _ _ _ e)
        | inr e ↦ rw gone (JsMap.get-remove k j m ∙ if_false _ _ _ e ∙ h)
      ]
    ]

    drop-prefixed :
        starts_with j prefix ≡ true → j ≡ k → JsMap.get j (drop_prefixed prefix m k) ≡ none
    unfolding drop_prefixed
    drop-prefixed h e =
        let gone : starts_with k prefix ≡ true = rw (← e) h in
        rw gone (JsMap.get-remove k j m ∙ if_true _ _ _ ((eq_iff k j).1 (sym e)))

  fold-kept :
      (prefix j : String) (ks : List String) (m : JsMap String (Entry T))
      → starts_with j prefix ≡ false
      → JsMap.get j (foldl (drop_prefixed prefix) m ks) ≡ JsMap.get j m
  fold-kept prefix j [] m h = refl
  fold-kept prefix j (k ∷ ks) m h =
      fold-kept prefix j ks (drop_prefixed prefix m k) h ∙ drop-kept prefix k j m h

  fold-prefixed :
      (prefix j : String) (ks : List String) (m : JsMap String (Entry T))
      → starts_with j prefix ≡ true
      → In j ks ⊎ (JsMap.get j m ≡ none)
      → JsMap.get j (foldl (drop_prefixed prefix) m ks) ≡ none
  fold-prefixed prefix j [] m h (inl i) = elim i [ ]
  fold-prefixed prefix j [] m h (inr e) = e
  fold-prefixed prefix j (k ∷ ks) m h (inl (inl e)) =
      fold-prefixed prefix j ks (drop_prefixed prefix m k) h (inr (drop-prefixed prefix k j m h e))
  fold-prefixed prefix j (k ∷ ks) m h (inl (inr i)) =
      fold-prefixed prefix j ks (drop_prefixed prefix m k) h (inl i)
  fold-prefixed prefix j (k ∷ ks) m h (inr e) =
      fold-prefixed prefix j ks (drop_prefixed prefix m k) h (inr (drop-absent prefix k j m e))

  -- the entry of a key after `invalidate`
  pub invalidate-entry :
      (prefix j : String) (c : TtlCache T)
      → JsMap.get j (invalidate prefix c).store
        ≡ (if starts_with j prefix then none else JsMap.get j c.store)
  unfolding invalidate
  invalidate-entry prefix j c = elim (Bool-cases (starts_with j prefix)) [
    | inr other ↦ rw other (fold-kept prefix j (keys c.store) c.store other)
    | inl gone ↦ rw gone (fold-prefixed prefix j (keys c.store) c.store gone (held))
  ]
    where
      held : In j (keys c.store) ⊎ (JsMap.get j c.store ≡ none)
      held = elim (Option-cases (JsMap.get j c.store)) [
        | inl missing ↦ inr missing
        | inr (v, found) ↦ inl (get-In_keys j c.store v found)
      ]

  -- what a call of `get` with this entry returns
  abbrev pub live : ℕ → Option (Entry T) → Option T
  live now none = none
  live now (some e) = if ltb e.exp now then none else some e.val

  pub get-live :
      (j : String) (now : ℕ) (c : TtlCache T) → (get j now c).0 ≡ live now (JsMap.get j c.store)
  unfolding get
  get-live j now c = ground arith

  -- The calls so far, the last one first, each with its time.
  unfoldable pub run : ℕ → List (ℕ × Call T) → TtlCache T
  run ttl [] = record { ttl_ms = ttl; store = [] }
  run ttl ((t, look k) ∷ h) = (get k t (run ttl h)).1
  run ttl ((t, put k v) ∷ h) = set k v t (run ttl h)
  run ttl ((t, drop p) ∷ h) = invalidate p (run ttl h)

  -- The answer by the history alone: the value last put under the key, unless a prefix of the key
  -- was invalidated since or more than `ttl` has passed.
  unfoldable pub expected : ℕ → String → ℕ → List (ℕ × Call T) → Option T
  expected ttl j now [] = none
  expected ttl j now ((t, look k) ∷ h) = expected ttl j now h
  expected ttl j now ((t, put k v) ∷ h) =
      let earlier = expected ttl j now h in
      if same_text k j then (if ltb (t + ttl) now then none else some v) else earlier
  expected ttl j now ((t, drop p) ∷ h) =
      let earlier = expected ttl j now h in if starts_with j p then none else earlier

  -- the clock did not go back
  abbrev pub Ordered : ℕ → List (ℕ × Call T) → Type 0
  Ordered now [] = Unit
  Ordered now ((t, c) ∷ h) = (t ≤ now) × Ordered t h

  Ordered-later : (t now : ℕ) (h : List (ℕ × Call T)) → t ≤ now → Ordered t h → Ordered now h
  Ordered-later t now [] le o = tt
  Ordered-later t now ((u, c) ∷ h) le (a, o) = (omega arith, o)

  ttl-run : (ttl : ℕ) (h : List (ℕ × Call T)) → (run ttl h).ttl_ms ≡ ttl
  unfolding run get set invalidate
  ttl-run ttl [] = refl
  ttl-run ttl ((t, look k) ∷ h) = ground (arith, ttl-run ttl h)
  ttl-run ttl ((t, put k v) ∷ h) = ttl-run ttl h
  ttl-run ttl ((t, drop p) ∷ h) = ttl-run ttl h

  -- a look at any key changes no later answer
  look-live :
      (k j : String) (t now : ℕ) (c : TtlCache T)
      → t ≤ now
      → live now (JsMap.get j (get k t c).1.store) ≡ live now (JsMap.get j c.store)
  unfolding get
  look-live k j t now c le = ground (arith, JsMap.get-remove k j c.store, eq_iff k j)

  live-run :
      (ttl : ℕ) (j : String) (now : ℕ) (h : List (ℕ × Call T))
      → Ordered now h
      → live now (JsMap.get j (run ttl h).store) ≡ expected ttl j now h
  unfolding run expected set
  live-run ttl j now [] o = unfold JsMap.get in refl
  live-run ttl j now ((t, look k) ∷ h) (le, o) =
      look-live k j t now (run ttl h) le ∙ live-run ttl j now h (Ordered-later t now h le o)
  live-run ttl j now ((t, put k v) ∷ h) (le, o) =
      let ih = live-run ttl j now h (Ordered-later t now h le o) in
      let span = ttl-run ttl h in
      let law =
        JsMap.get-set k j (record { val = v; exp = t + (run ttl h).ttl_ms }) (run ttl h).store in
      elim (Bool-cases (same_text k j)) [
        | inl e ↦ rw (e, law ∙ if_true _ _ _ e, span)
        | inr e ↦ rw (e, law ∙ if_false _ _ _ e) ih
      ]
  live-run ttl j now ((t, drop p) ∷ h) (le, o) =
      let ih = live-run ttl j now h (Ordered-later t now h le o) in
      let law = invalidate-entry p j (run ttl h) in
      elim (Bool-cases (starts_with j p)) [
        | inl e ↦ rw (e, law ∙ if_true _ _ _ e)
        | inr e ↦ rw (e, law ∙ if_false _ _ _ e) ih
      ]

  -- While the clock does not go back, the cache answers what its history says: the value last put
  -- under the key, if no prefix of the key was invalidated since and no more than `ttl` has passed.
  pub get-run :
      (ttl : ℕ) (j : String) (now : ℕ) (h : List (ℕ × Call T))
      → Ordered now h
      → (get j now (run ttl h)).0 ≡ expected ttl j now h
  get-run ttl j now h o = get-live j now (run ttl h) ∙ live-run ttl j now h o
