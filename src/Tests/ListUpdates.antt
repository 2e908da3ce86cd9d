-- ===== src/Tests/ListUpdates.antt =====
-- `update` of TypeORM over lists.
use reolink_station.Prelude.{
  suc, Bool, true, false, List, [], ◌∷◌, ◌≡◌, ◌↔◌, ◌⊎◌, inl, inr, refl, sym, ◌∙◌, ◌==◌, In, In-map,
  of_In-map, keep_if, length, map, if◌then◌else◌, if_true, if_false, subst, Bool-cases, arith,
}
use reolink_station.Invites.{Updates}

module _ {Row : Type 0} where
  unfoldable pub patched : (Row → Bool) → (Row → Row) → Row → Row
  patched p f r = if p r then f r else r

  pub no_row :
      (p : Row → Bool) (t : List Row) (r : Row) → length (keep_if p t) ≡ 0 → In r t → p r ≡ false
  unfolding keep_if
  no_row p [] r h m = elim m [ ]
  no_row p (x ∷ t) r h (inl e) = elim (Bool-cases (p x)) [
    | inl hit ↦ absurd (let k : suc (length (keep_if p t)) ≡ 0 = rw hit at h in omega arith)
    | inr miss ↦ rw e miss
  ]
  no_row p (x ∷ t) r h (inr m) = elim (Bool-cases (p x)) [
    | inl hit ↦ absurd (let k : suc (length (keep_if p t)) ≡ 0 = rw hit at h in omega arith)
    | inr miss ↦ no_row p t r (rw miss at h) m
  ]

  pub some_row :
      (p : Row → Bool) (t : List Row)
      → (length (keep_if p t) == 0) ≡ false
      → (r : Row) × In r t × (p r ≡ true)
  unfolding keep_if
  some_row p [] h = absurd (cc h)
  some_row p (x ∷ t) h = elim (Bool-cases (p x)) [
    | inl hit ↦ (x, inl refl, hit)
    | inr miss ↦ let (r, m, e) = some_row p t (rw miss at h) in (r, inr m, e)
  ]

  pub In-patched :
      (p : Row → Bool) (f : Row → Row) (t : List Row) (r : Row)
      → In r (map (patched p f) t)
        ↔ ((In r t × (p r ≡ false)) ⊎ ((s : Row) × In s t × (p s ≡ true) × (r ≡ f s)))
  unfolding patched
  In-patched p f t r = (
    λ m.
        let (s, ms, e) = of_In-map (patched p f) r t m in
        elim (Bool-cases (p s)) [
          | inl hit ↦ inr (s, ms, hit, e ∙ if_true _ _ _ hit)
          | inr miss ↦ let same = e ∙ if_false _ _ _ miss in inl (rw same ms, rw same miss)
        ],
    elim [
      | inl (m, miss) ↦
          subst (λ x. In x (map (patched p f) t)) (if_false _ _ _ miss) (In-map (patched p f) r t m)
      | inr (s, m, hit, e) ↦
          subst (λ x. In x (map (patched p f) t)) (if_true _ _ _ hit ∙ sym e)
            (In-map (patched p f) s t m)
    ],
  )

  unfoldable pub list_updates : Updates Row
  unfolding patched keep_if
  list_updates = record {
    affected = λ p t. length (keep_if p t);
    update = λ p f t. map (patched p f) t;
    affected_none = no_row;
    affected_some = some_row;
    in_update = In-patched;
  }
