-- ===== src/Prelude/Split.antt =====
-- `s.split(c)` for a separator of one character, given by its code.
use Prim.Native.Char.{Char, code}
use Prim.Native.Nat.{ℕ}
use Prim.Native.String.{String}
use text.Mathlib.TextLemmas.{nil-append, cons-append}
use mathlib.Core.Path.{◌≡◌, refl, ap, ◌∙◌}
use mathlib.Core.Logic.{inl, inr}
use mathlib.Core.Bool.{Bool, true, false, not, ◌&&◌}
use mathlib.Core.List.{List, [], ◌∷◌, ◌++◌}
use native.Mathlib.Omega.{arith}
use reolink_station.Prelude.Tests.{◌==◌, if◌then◌else◌, both_true, Bool-cases, nat_eq_iff}
use reolink_station.Prelude.Texts.{join_text}

unfoldable pub is_empty : String → Bool
is_empty String.[] = true
is_empty (String.◌∷◌ c s) = false

unfoldable pub push_front : Char → List String → List String
push_front c [] = (String.◌∷◌ c String.[]) ∷ []
push_front c (p ∷ ps) = (String.◌∷◌ c p) ∷ ps

unfoldable pub split_at : ℕ → String → List String
unfolding push_front
split_at sep String.[] = String.[] ∷ []
split_at sep (String.◌∷◌ c s) =
    let rest = split_at sep s in if code c == sep then String.[] ∷ rest else push_front c rest

-- The character does not occur.
unfoldable pub is_free : ℕ → String → Bool
is_free sep String.[] = true
is_free sep (String.◌∷◌ c s) = not (code c == sep) && is_free sep s

-- A text has a first piece.
split_at-cons :
    (sep : ℕ) (s : String) → (x : String) × (xs : List String) × (split_at sep s ≡ x ∷ xs)
unfolding split_at push_front
split_at-cons sep String.[] = (String.[], [], refl)
split_at-cons sep (String.◌∷◌ c s) = elim (Bool-cases (code c == sep)) [
  | inl e ↦ (String.[], split_at sep s, rw e refl)
  | inr e ↦ let (x, xs, h) = split_at-cons sep s in (String.◌∷◌ c x, xs, rw (e, h) refl)
]

pub split_at-append :
    (sep : Char) (a t : String)
    → split_at (code sep) (join_text a (String.◌∷◌ sep t))
      ≡ split_at (code sep) a ++ split_at (code sep) t
unfolding split_at push_front
split_at-append sep String.[] t =
    let same = (nat_eq_iff (code sep) (code sep)).1 refl in
    ap (split_at (code sep)) (nil-append (String.◌∷◌ sep t)) ∙ rw same refl
split_at-append sep (String.◌∷◌ c a) t =
    let (x, xs, h) = split_at-cons (code sep) a in
    ap (split_at (code sep)) (cons-append c a (String.◌∷◌ sep t))
    ∙ (elim (Bool-cases (code c == code sep)) [
      | inl e ↦ rw (e, split_at-append sep a t) refl
      | inr e ↦ rw (e, split_at-append sep a t, h) refl
    ])

-- A text without the separator is one piece.
pub split_at-is_free : (sep : ℕ) (a : String) → is_free sep a ≡ true → split_at sep a ≡ a ∷ []
unfolding split_at push_front is_free
split_at-is_free sep String.[] h = refl
split_at-is_free sep (String.◌∷◌ c a) h =
    let parts = both_true (not (code c == sep)) (is_free sep a) h in
    let other : (code c == sep) ≡ false = ground (arith, parts.0) in
    rw (other, split_at-is_free sep a parts.1) refl
