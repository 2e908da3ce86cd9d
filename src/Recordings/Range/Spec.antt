-- ===== src/Recordings/Range/Spec.antt =====
-- What `parseRange` returns: always a part of the file, and the part that the header asks for.
use reolink_station.Prelude.{
  ℕ, zero, suc, ◌-◌, ◌≤◌, ◌<◌, min, ◌&&◌, ◌||◌, Option, none, some, List, [], ◌∷◌, ◌++◌, ltb, leb,
  ◌==◌, if◌then◌else◌, ◌≡◌, refl, ap, ◌∙◌, arith,
}
use reolink_station.Recordings.Range.Digits.{
  AllSpaces, AllDigits, range_text, trim-range_text, match_range-range_text,
}
use reolink_station.Recordings.Range.{
  Range, whole, unsatisfiable, span, trim, match_range, parse_int, checked, range_of, of_groups,
  parse_range,
}

checked-bounds :
    (a b size first last : ℕ)
    → b < size
    → checked a b size ≡ span first last
    → (first ≤ last) × (last < size)
unfolding checked
checked-bounds a b size first last h e = ground arith

checked-bounds_empty :
    (a b first last : ℕ) → checked a b 0 ≡ span first last → (first ≤ last) × (last < 0)
unfolding checked
checked-bounds_empty a b first last e = ground arith

range_of-bounds :
    (ds es : List ℕ) (size first last : ℕ)
    → range_of ds es size ≡ span first last
    → (first ≤ last) × (last < size)
unfolding range_of
range_of-bounds [] [] size first last e = ground arith
range_of-bounds [] (d ∷ ds) zero first last e = ground arith
range_of-bounds [] (d ∷ ds) (suc size) first last e = ground arith
range_of-bounds (d ∷ ds) [] zero first last e = ground arith
range_of-bounds (d ∷ ds) [] (suc size) first last e = ground arith
range_of-bounds (d ∷ ds) (c ∷ es) zero first last e = ground arith
range_of-bounds (d ∷ ds) (c ∷ es) (suc size) first last e = ground arith

of_groups-bounds :
    (o : Option (List ℕ × List ℕ)) (size first last : ℕ)
    → of_groups o size ≡ span first last
    → (first ≤ last) × (last < size)
unfolding of_groups
of_groups-bounds none size first last e = cc
of_groups-bounds (some (ds, es)) size first last e = range_of-bounds ds es size first last e

-- Whatever the header, a span that is returned is not empty and lies within the file.
pub parse_range-bounds :
    (header : Option (List ℕ)) (size first last : ℕ)
    → parse_range header size ≡ span first last
    → (first ≤ last) × (last < size)
unfolding parse_range
parse_range-bounds none size first last e = cc
parse_range-bounds (some []) size first last e = cc
parse_range-bounds (some (c ∷ s)) size first last e =
    of_groups-bounds (match_range (trim (c ∷ s))) size first last e

-- A byte range by its numbers: RFC 9110, section 14.1.2, of a file of `size` bytes.
unfoldable pub wanted : Option ℕ → Option ℕ → ℕ → Range
wanted none none size = whole
wanted none (some n) size =
    if n == 0 || size == 0 then unsatisfiable else span (size - n) (size - 1)
wanted (some a) none size = if ltb a size then span a (size - 1) else unsatisfiable
wanted (some a) (some b) size =
    if ltb a size && leb a b then span a (min b (size - 1)) else unsatisfiable

-- a text of digits as a number, if it is not empty
unfoldable pub number_of : List ℕ → Option ℕ
unfolding parse_int
number_of [] = none
number_of (d ∷ ds) = some (parse_int 0 (d ∷ ds))

range_of-wanted :
    (ds es : List ℕ) (size : ℕ) → range_of ds es size ≡ wanted (number_of ds) (number_of es) size
unfolding range_of wanted number_of
range_of-wanted [] [] size = refl
range_of-wanted [] (d ∷ ds) size = ground arith
range_of-wanted (d ∷ ds) [] size = ground arith
range_of-wanted (d ∷ ds) (c ∷ es) size = ground arith

parse_range-some :
    (s : List ℕ) (size : ℕ) → parse_range (some s) size ≡ of_groups (match_range (trim s)) size
unfolding parse_range
parse_range-some [] size = refl
parse_range-some (c ∷ s) size = refl

-- A header "bytes=first-last" of digits, either of them perhaps left out, with white space around
-- it, is answered by the range of its numbers.
pub parse_range-wanted :
    (before after ds es : List ℕ) (size : ℕ)
    → AllSpaces before
    → AllSpaces after
    → AllDigits ds
    → AllDigits es
    → parse_range (some (before ++ (range_text ds es ++ after))) size
      ≡ wanted (number_of ds) (number_of es) size
parse_range-wanted before after ds es size sb sa dd de =
    parse_range-some (before ++ (range_text ds es ++ after)) size
    ∙ ap (λ t. of_groups (match_range t) size) (trim-range_text before after ds es sb sa de)
    ∙ ap (λ o. of_groups o size) (match_range-range_text ds es dd de)
    ∙ unfold of_groups in range_of-wanted ds es size
