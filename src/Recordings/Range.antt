-- ===== src/Recordings/Range.antt =====
-- `parseRange` of src/recordings/recordings.controller.ts. A header is the list of its code points.
-- `size - 1` stops at 0 here and is -1 in the source for an empty file: both go on to the test
-- `start >= size`, which an empty file fails. `parseInt` is exact up to 2^53, and above it the
-- rounded value lies above every size of a file as the exact one does.
pub mod Digits
pub mod Spec
use mathlib.Core.List.{reverse}
use reolink_station.Prelude.{
  ℕ, zero, suc, ◌+◌, ◌-◌, ◌*◌, String, Bool, true, false, ◌&&◌, ◌||◌, not, Option, none, some, List,
  [], ◌∷◌, ltb, leb, ◌==◌, if◌then◌else◌, codes,
}

-- `null`, 'unsatisfiable' or a span with both ends included
pub data Range : Type 0 where
  whole unsatisfiable : Range
  span : (first last : ℕ) → Range

-- the white space that `trim` removes
unfoldable pub is_space : ℕ → Bool
is_space c =
    leb 9 c && leb c 13
    || c == 32
    || c == 160
    || c == 0x1680
    || leb 0x2000 c && leb c 0x200a
    || c == 0x2028
    || c == 0x2029
    || c == 0x202f
    || c == 0x205f
    || c == 0x3000
    || c == 0xfeff

unfoldable pub drop_spaces : List ℕ → List ℕ
unfolding is_space
drop_spaces [] = []
drop_spaces (c ∷ s) = let rest = drop_spaces s in if is_space c then rest else c ∷ s

unfoldable pub trim : List ℕ → List ℕ
unfolding drop_spaces
trim s = reverse (drop_spaces (reverse (drop_spaces s)))

unfoldable pub is_digit : ℕ → Bool
is_digit c = leb b'0' c && leb c b'9'

-- the digits at the front, and the rest
unfoldable pub span_digits : List ℕ → List ℕ × List ℕ
unfolding is_digit
span_digits [] = ([], [])
span_digits (c ∷ s) =
    let (ds, rest) = span_digits s in if is_digit c then (c ∷ ds, rest) else ([], c ∷ s)

-- what follows the given text
unfoldable pub after_text : List ℕ → List ℕ → Option (List ℕ)
after_text [] s = some s
after_text (p ∷ ps) [] = none
after_text (p ∷ ps) (c ∷ s) = if p == c then after_text ps s else none

-- the groups of /^bytes=(\d*)-(\d*)$/: the last digits must end the text
unfoldable pub match_last : List ℕ → List ℕ × List ℕ → Option (List ℕ × List ℕ)
match_last first (last, []) = some (first, last)
match_last first (last, _ ∷ _) = none

unfoldable pub match_dash : List ℕ → Option (List ℕ) → Option (List ℕ × List ℕ)
unfolding match_last span_digits
match_dash first none = none
match_dash first (some t) = match_last first (span_digits t)

unfoldable pub match_first : List ℕ × List ℕ → Option (List ℕ × List ℕ)
unfolding match_dash after_text
match_first (first, rest) = match_dash first (after_text (codes "-") rest)

unfoldable pub match_bytes : Option (List ℕ) → Option (List ℕ × List ℕ)
unfolding match_first
match_bytes none = none
match_bytes (some t) = match_first (span_digits t)

unfoldable pub match_range : List ℕ → Option (List ℕ × List ℕ)
unfolding match_bytes after_text
match_range s = match_bytes (after_text (codes "bytes=") s)

-- `parseInt(m, 10)` of a text of digits
unfoldable pub parse_int : ℕ → List ℕ → ℕ
parse_int n [] = n
parse_int n (d ∷ ds) = parse_int (n * 10 + (d - b'0')) ds

-- the last lines of `parseRange`
unfoldable pub checked : ℕ → ℕ → ℕ → Range
checked start last size =
    if ltb last start || leb size start then unsatisfiable else span start last

unfoldable pub range_of : List ℕ → List ℕ → ℕ → Range
unfolding checked parse_int
range_of [] [] size = whole
range_of [] (d ∷ ds) size =
    let n = parse_int 0 (d ∷ ds) in
    if n == 0 then unsatisfiable else checked (size - n) (size - 1) size
range_of (d ∷ ds) [] size = checked (parse_int 0 (d ∷ ds)) (size - 1) size
range_of (d ∷ ds) (e ∷ es) size =
    let last = parse_int 0 (e ∷ es) in
    checked (parse_int 0 (d ∷ ds)) (if leb size last then size - 1 else last) size

unfoldable pub of_groups : Option (List ℕ × List ℕ) → ℕ → Range
unfolding range_of
of_groups none size = whole
of_groups (some (first, last)) size = range_of first last size

unfoldable pub parse_range : Option (List ℕ) → ℕ → Range
unfolding of_groups match_range trim
parse_range none size = whole
parse_range (some []) size = whole
parse_range (some (c ∷ s)) size = of_groups (match_range (trim (c ∷ s))) size
