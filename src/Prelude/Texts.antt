-- ===== src/Prelude/Texts.antt =====
-- Texts, as sequences of code points, and the functions of JavaScript's `String` that the program calls.
use Prim.Native.Nat.{ℕ}
use Prim.Native.Char.{code}
use Prim.Native.String
use Prim.Native.String.{String}
use mathlib.Core.Bool.{Bool}
use mathlib.Core.List.{List, [], ◌∷◌}
use text.Mathlib.Text.{◌==◌}

-- `s === t`
abbrev pub same_text : String → String → Bool
same_text s t = s == t

-- `s + t`
abbrev pub join_text : String → String → String
join_text s t = String.◌++◌ s t

-- The code points of a text.
abbrev pub codes : String → List ℕ
codes String.[] = []
codes (String.◌∷◌ c s) = code c ∷ codes s
