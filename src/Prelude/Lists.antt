-- ===== src/Prelude/Lists.antt =====
-- Lists measured by native numbers, membership and quantification by recursion.
use Prim.Native.Nat.{ℕ, suc, ◌+◌}
use mathlib.Core.Path.{◌≡◌, refl, ap}
use mathlib.Core.Logic.{◌⊎◌, inl, inr}
use mathlib.Core.List.{List, [], ◌∷◌, ◌++◌, map, reverse, reverse-cons}
use mathlib.Core.Bool.{Bool, true}
use native.Mathlib.Omega.{arith}
use reolink_station.Prelude.Tests.{if◌then◌else◌}

module _ {ℓ} {A : Type ℓ} where
  abbrev pub length : List A → ℕ
  length [] = 0
  length (x ∷ xs) = suc (length xs)

  pub length-append : (xs ys : List A) → length (xs ++ ys) ≡ length xs + length ys
  length-append [] ys = omega arith
  length-append (x ∷ xs) ys = omega (arith, length-append xs ys)

-- What holds of every item.
abbrev pub All {ℓ κ} : {A : Type ℓ} → (A → Type κ) → List A → Type κ
All P [] = Unit
All P (x ∷ xs) = P x × All P xs

module _ {ℓ κ} {A : Type ℓ} (P : A → Type κ) where
  pub All-append : (xs ys : List A) → All P xs → All P ys → All P (xs ++ ys)
  All-append [] ys h k = k
  All-append (x ∷ xs) ys (a, h) k = (a, All-append xs ys h k)

  pub of_All-append : (xs ys : List A) → All P (xs ++ ys) → All P xs × All P ys
  of_All-append [] ys h = (tt, h)
  of_All-append (x ∷ xs) ys (a, h) = let (k, l) = of_All-append xs ys h in ((a, k), l)

  pub All-reverse : (xs : List A) → All P xs → All P (reverse xs)
  All-reverse [] h = tt
  All-reverse (x ∷ xs) (a, h) =
      rw reverse-cons (All-append (reverse xs) (x ∷ []) (All-reverse xs h) (a, tt))

-- The item stands in the list.
abbrev pub In : {A : Type 0} → A → List A → Type 0
In a [] = ⊥
In a (x ∷ xs) = (a ≡ x) ⊎ In a xs

-- The items that pass the test, in order.
unfoldable pub keep_if : {A : Type 0} → (A → Bool) → List A → List A
keep_if p [] = []
keep_if p (x ∷ xs) = let rest = keep_if p xs in if p x then x ∷ rest else rest

module _ {A : Type 0} (p : A → Bool) (a : A) where
  pub In-keep_if : (xs : List A) → In a xs → p a ≡ true → In a (keep_if p xs)
  unfolding keep_if
  In-keep_if [] m h = elim m [ ]
  In-keep_if (x ∷ xs) (inl e) h = ground arith
  In-keep_if (x ∷ xs) (inr m) h = ground (arith, In-keep_if xs m h)

  pub of_In-keep_if : (xs : List A) → In a (keep_if p xs) → In a xs × (p a ≡ true)
  unfolding keep_if
  of_In-keep_if [] m = elim m [ ]
  of_In-keep_if (x ∷ xs) m = ground (arith, of_In-keep_if xs)

module _ {A : Type 0} {B : Type 0} (f : A → B) where
  pub In-map : (a : A) (xs : List A) → In a xs → In (f a) (map f xs)
  In-map a [] m = elim m [ ]
  In-map a (x ∷ xs) (inl e) = inl (ap f e)
  In-map a (x ∷ xs) (inr m) = inr (In-map a xs m)

  pub of_In-map : (b : B) (xs : List A) → In b (map f xs) → (a : A) × In a xs × (b ≡ f a)
  of_In-map b [] m = elim m [ ]
  of_In-map b (x ∷ xs) (inl e) = (x, inl refl, e)
  of_In-map b (x ∷ xs) (inr m) = let (a, n, e) = of_In-map b xs m in (a, inr n, e)

module _ {A : Type 0} (a : A) where
  pub In-append_left : (xs ys : List A) → In a xs → In a (xs ++ ys)
  In-append_left [] ys m = elim m [ ]
  In-append_left (x ∷ xs) ys (inl e) = inl e
  In-append_left (x ∷ xs) ys (inr m) = inr (In-append_left xs ys m)

  pub In-append_right : (xs ys : List A) → In a ys → In a (xs ++ ys)
  In-append_right [] ys m = m
  In-append_right (x ∷ xs) ys m = inr (In-append_right xs ys m)

  pub of_In-append : (xs ys : List A) → In a (xs ++ ys) → In a xs ⊎ In a ys
  of_In-append [] ys m = inr m
  of_In-append (x ∷ xs) ys (inl e) = inl (inl e)
  of_In-append (x ∷ xs) ys (inr m) = elim (of_In-append xs ys m) [
    | inl n ↦ inl (inr n)
    | inr n ↦ inr n
  ]

module _ {A : Type 0} (x : A) (before after : List A) where
  pub length-middle : length (before ++ x ∷ after) ≡ suc (length (before ++ after))
  length-middle =
      omega (arith, length-append {0} before (x ∷ after), length-append {0} before after)

  pub In-middle : In x (before ++ x ∷ after)
  In-middle = In-append_right x before (x ∷ after) (inl refl)

  pub In-around : (y : A) → In y (before ++ after) → In y (before ++ x ∷ after)
  In-around y m = elim (of_In-append y before after m) [
    | inl b ↦ In-append_left y before (x ∷ after) b
    | inr a ↦ In-append_right y before (x ∷ after) (inr a)
  ]

  pub of_In-middle : (y : A) → In y (before ++ x ∷ after) → (y ≡ x) ⊎ In y (before ++ after)
  of_In-middle y m = elim (of_In-append y before (x ∷ after) m) [
    | inl b ↦ inr (In-append_left y before after b)
    | inr (inl e) ↦ inl e
    | inr (inr a) ↦ inr (In-append_right y before after a)
  ]
