-- ===== src/Tables.antt =====
-- TypeORM's `Repository` and Postgres, which the services call and this repository does not
-- implement: a table is the list of its rows, and the operations on it are a record of functions
-- with the documented behaviour that the services rely on.
pub mod Lookup
use reolink_station.Prelude.{
  String, List, Bool, true, false, Option, none, some, ◌≡◌, ◌≢◌, ◌⊎◌, ◌↔◌, In,
}

-- The comparison that Postgres makes on columns of type `uuid`: it does not see the letters' case.
pub record UuidColumn : Type 0 where
  pub same : String → String → Bool
  pub same_self : (a : String) → same a a ≡ true
  pub same_sym : (a b : String) → same a b ≡ true → same b a ≡ true
  pub same_trans : (a b c : String) → same a b ≡ true → same b c ≡ true → same a c ≡ true

-- The operations on a table whose rows have the primary key `key`. A criterion is a test of rows.
pub record Repository (Row : Type 0) (key : Row → String) : Type 0 where
  pub find_one : (Row → Bool) → List Row → Option Row
  pub find : (Row → Bool) → List Row → List Row
  pub delete : (Row → Bool) → List Row → List Row
  -- `save` of a row with its key: an update in place where the key is there, else an insertion
  pub save : Row → List Row → List Row
  -- the key that the database generates for a row saved without one
  pub new_key : List Row → String
  pub find_one_hit :
      (p : Row → Bool) (t : List Row) (r : Row) → find_one p t ≡ some r → In r t × (p r ≡ true)
  pub find_one_miss :
      (p : Row → Bool) (t : List Row) (r : Row) → find_one p t ≡ none → In r t → p r ≡ false
  pub in_find :
      (p : Row → Bool) (t : List Row) (r : Row) → In r (find p t) ↔ (In r t × (p r ≡ true))
  pub in_delete :
      (p : Row → Bool) (t : List Row) (r : Row) → In r (delete p t) ↔ (In r t × (p r ≡ false))
  pub in_save :
      (x : Row) (t : List Row) (r : Row) → In r (save x t) ↔ ((r ≡ x) ⊎ (In r t × (key r ≢ key x)))
  pub new_key_fresh : (t : List Row) (r : Row) → In r t → key r ≢ new_key t
