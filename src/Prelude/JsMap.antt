-- ===== src/Prelude/JsMap.antt =====
-- JavaScript's `Map`, as the list of its entries in the order of insertion.
use Prim.Native.Nat.{ℕ, ◌+◌, ◌<◌, ◌≤◌}
use mathlib.Core.Path.{◌≡◌, refl}
use mathlib.Core.Logic.{◌↔◌}
use mathlib.Core.Bool.{Bool, true}
use mathlib.Core.Option.{Option, none, some}
use mathlib.Core.List.{List, [], ◌∷◌}
use native.Mathlib.Omega.{arith}
use text.Mathlib.Text.{◌==◌ as text_eq}
use text.Mathlib.TextEquality.{eq_iff}
use Prim.Native.String.{String}
use reolink_station.Prelude.Tests.{◌==◌, if◌then◌else◌, nat_eq_iff}
use reolink_station.Prelude.Lists.{length}

-- The equality of keys.
pub record Key (K : Type 0) : Type 0 where
  pub eq : K → K → Bool
  pub eq_iff : (a b : K) → (eq a b ≡ true) ↔ (a ≡ b)

instance abbrev pub nat_key : Key ℕ
nat_key = record { eq = ◌==◌; eq_iff = nat_eq_iff }

instance abbrev pub text_key : Key String
text_key = record { eq = text_eq; eq_iff = eq_iff }

abbrev pub JsMap : Type 0 → Type 0 → Type 0
JsMap K V = List (K × V)

pub eq_self : {K : Type 0} ⦃e : Key K⦄ (k : K) → e.eq k k ≡ true
eq_self ⦃e⦄ k = (e.eq_iff k k).1 refl

module _ {K V : Type 0} ⦃e : Key K⦄ where
  unfoldable pub get : K → JsMap K V → Option V
  get k [] = none
  get k ((j, v) ∷ m) = if e.eq j k then some v else get k m

  -- a key that is there keeps its place
  unfoldable pub set : K → V → JsMap K V → JsMap K V
  set k v [] = (k, v) ∷ []
  set k v ((j, w) ∷ m) = if e.eq j k then (k, v) ∷ m else (j, w) ∷ set k v m

  unfoldable pub remove : K → JsMap K V → JsMap K V
  remove k [] = []
  remove k ((j, w) ∷ m) = let rest = remove k m in if e.eq j k then rest else (j, w) ∷ rest

  pub get-set :
      (k j : K) (v : V) (m : JsMap K V) → get j (set k v m) ≡ (if e.eq k j then some v else get j m)
  unfolding get set
  get-set k j v [] = refl
  get-set k j v ((i, w) ∷ m) =
      ground (arith, e.eq_iff k j, e.eq_iff i k, e.eq_iff i j, get-set k j v m)

  pub get-remove :
      (k j : K) (m : JsMap K V) → get j (remove k m) ≡ (if e.eq k j then none else get j m)
  unfolding get remove
  get-remove k j [] = ground arith
  get-remove k j ((i, w) ∷ m) =
      ground (arith, e.eq_iff k j, e.eq_iff i k, e.eq_iff i j, get-remove k j m)

  pub length-remove_le : (k : K) (m : JsMap K V) → length (remove k m) ≤ length m
  unfolding remove
  length-remove_le k [] = omega arith
  length-remove_le k ((i, w) ∷ m) = ground (arith, length-remove_le k m)

  pub length-remove_lt :
      (k : K) (v : V) (m : JsMap K V) → get k m ≡ some v → length (remove k m) < length m
  unfolding remove get
  length-remove_lt k v [] h = cc
  length-remove_lt k v ((i, w) ∷ m) h = ground (arith, length-remove_lt k v m, length-remove_le k m)

  pub length-set_absent :
      (k : K) (v : V) (m : JsMap K V) → get k m ≡ none → length (set k v m) ≡ length m + 1
  unfolding get set
  length-set_absent k v [] h = omega arith
  length-set_absent k v ((j, w) ∷ m) h = ground (arith, length-set_absent k v m)
