-- ===== src/Recordings/Range/Digits.antt =====
-- Reading the text of a range: `trim` and the groups of the regular expression.
use mathlib.Core.List.{reverse, reverse-cons, reverse-append, reverse-reverse}
use reolink_station.Prelude.{
  ℕ, true, false, some, List, [], ◌∷◌, ◌++◌, codes, ◌≡◌, refl, ap, ◌∙◌, arith, All, All-reverse,
  if_true, if_false,
}
use reolink_station.Recordings.Range.{
  trim, is_space, drop_spaces, is_digit, span_digits, after_text, match_last, match_dash,
  match_first, match_bytes, match_range,
}

abbrev pub AllSpaces : List ℕ → Type 0
AllSpaces = All (λ c. is_space c ≡ true)

abbrev pub AllDigits : List ℕ → Type 0
AllDigits = All (λ c. is_digit c ≡ true)

-- a text that begins with another character than a space
abbrev StartsDark : List ℕ → Type 0
StartsDark [] = Unit
StartsDark (c ∷ s) = is_space c ≡ false

drop_spaces-append : (ws t : List ℕ) → AllSpaces ws → StartsDark t → drop_spaces (ws ++ t) ≡ t
unfolding drop_spaces
drop_spaces-append [] [] h d = refl
drop_spaces-append [] (c ∷ t) h d = unfold is_space in if_false _ _ _ d
drop_spaces-append (w ∷ ws) t (h, hs) d = if_true _ _ _ h ∙ drop_spaces-append ws t hs d

-- `trim` removes the white space around a text that neither begins nor ends with any.
pub trim_around :
    (before after t : List ℕ)
    → AllSpaces before
    → AllSpaces after
    → StartsDark (t ++ after)
    → StartsDark (reverse t)
    → trim (before ++ (t ++ after)) ≡ t
unfolding trim
trim_around before after t hb ha start finish =
    rw
      (
        drop_spaces-append before (t ++ after) hb start,
        reverse-append t after,
        drop_spaces-append (reverse after) (reverse t)
            (All-reverse (λ c. is_space c ≡ true) after ha) finish,
      )
      (reverse-reverse t)

digit_dark : (c : ℕ) → is_digit c ≡ true → is_space c ≡ false
unfolding is_digit is_space
digit_dark c h = ground arith

span_digits-append :
    (ds : List ℕ) (c : ℕ) (rest : List ℕ)
    → AllDigits ds
    → is_digit c ≡ false
    → span_digits (ds ++ c ∷ rest) ≡ (ds, c ∷ rest)
unfolding span_digits
span_digits-append [] c rest h k = if_false _ _ _ k
span_digits-append (d ∷ ds) c rest (a, h) k =
    let ih = span_digits-append ds c rest h k in
    if_true _ _ _ a ∙ ap (λ (p : List ℕ × List ℕ). (d ∷ p.0, p.1)) ih

span_digits_all : (ds : List ℕ) → AllDigits ds → span_digits ds ≡ (ds, [])
unfolding span_digits
span_digits_all [] h = refl
span_digits_all (d ∷ ds) (a, h) =
    if_true _ _ _ a ∙ ap (λ (p : List ℕ × List ℕ). (d ∷ p.0, p.1)) (span_digits_all ds h)

-- "bytes=" and the two groups
abbrev pub range_text : List ℕ → List ℕ → List ℕ
range_text ds es = codes "bytes=" ++ (ds ++ b'-' ∷ es)

pub match_range-range_text :
    (ds es : List ℕ) → AllDigits ds → AllDigits es → match_range (range_text ds es) ≡ some (ds, es)
unfolding match_range match_bytes match_first match_dash match_last after_text
match_range-range_text ds es hd he =
    let first = span_digits-append ds b'-' es hd (unfold is_digit in refl) in
    ap match_first first ∙ ap (match_last ds) (span_digits_all es he)

-- the text ends in a dash or a digit
range_text-dark : (ds es : List ℕ) → AllDigits es → StartsDark (reverse (range_text ds es))
range_text-dark ds es he =
    rw
      (
        reverse-append (codes "bytes=") (ds ++ b'-' ∷ es),
        reverse-append ds (b'-' ∷ es),
        reverse-cons b'-' es,
      )
      (front (reverse es) (All-reverse (λ c. is_digit c ≡ true) es he) (reverse ds)
        (reverse (codes "bytes=")))
  where
    front :
        (xs : List ℕ)
        → AllDigits xs
        → (ys zs : List ℕ) → StartsDark (((xs ++ b'-' ∷ []) ++ ys) ++ zs)
    front [] h ys zs = unfold is_space in refl
    front (x ∷ xs) (a, h) ys zs = digit_dark x a

-- White space around the text of a range makes no difference.
pub trim-range_text :
    (before after ds es : List ℕ)
    → AllSpaces before
    → AllSpaces after
    → AllDigits es
    → trim (before ++ (range_text ds es ++ after)) ≡ range_text ds es
trim-range_text before after ds es hb ha he =
    trim_around before after (range_text ds es) hb ha (unfold is_space in refl)
      (range_text-dark ds es he)
