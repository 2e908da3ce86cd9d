-- ===== src/Tables/Lookup.antt =====
-- What `findOne` returns, from the rows that meet the criterion.
use reolink_station.Prelude.{
  String, List, Bool, true, false, none, some, ◌≡◌, inl, inr, sym, ◌∙◌, ap, In, Option-cases,
}
use reolink_station.Tables.{Repository}

module _ {Row : Type 0} {key : Row → String} (repo : Repository Row key) (p : Row → Bool) where
  pub find_one_unique :
      (t : List Row) (r : Row)
      → In r t
      → p r ≡ true
      → ((x : Row) → In x t → p x ≡ true → x ≡ r)
      → repo.find_one p t ≡ some r
  find_one_unique t r m h only = elim (Option-cases (repo.find_one p t)) [
    | inl missed ↦ cc (repo.find_one_miss p t r missed m)
    | inr (x, found) ↦
        let hit = repo.find_one_hit p t x found in found ∙ ap some (only x hit.0 hit.1)
  ]

  pub find_one_absent :
      (t : List Row) → ((x : Row) → In x t → p x ≡ false) → repo.find_one p t ≡ none
  find_one_absent t absent = elim (Option-cases (repo.find_one p t)) [
    | inl missed ↦ missed
    | inr (x, found) ↦ let hit = repo.find_one_hit p t x found in cc (absent x hit.0, hit.1)
  ]

  -- Two tables with the same rows among those that meet the criterion, of which each has one at most.
  pub find_one_same :
      (t u : List Row)
      → ((x y : Row) → In x t → In y t → p x ≡ true → p y ≡ true → x ≡ y)
      → ((x : Row) → p x ≡ true → In x t → In x u)
      → ((x : Row) → p x ≡ true → In x u → In x t)
      → repo.find_one p u ≡ repo.find_one p t
  find_one_same t u single to from = elim (Option-cases (repo.find_one p t)) [
    | inl missed ↦
        find_one_absent u (λ x m. elim (Option-cases (repo.find_one p u)) [
          | inl other ↦ repo.find_one_miss p u x other m
          | inr (y, found) ↦
              let hit = repo.find_one_hit p u y found in
              cc (repo.find_one_miss p t y missed (from y hit.1 hit.0), hit.1)
        ])
        ∙ sym missed
    | inr (x, found) ↦
        let hit = repo.find_one_hit p t x found in
        find_one_unique u x (to x hit.1 hit.0) hit.1
          (λ y m h. single y x (from y h m) hit.0 h hit.1)
        ∙ sym found
  ]
