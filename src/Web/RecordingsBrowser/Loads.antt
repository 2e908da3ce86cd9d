-- ===== src/Web/RecordingsBrowser/Loads.antt =====
-- The requests for listings, of which one at most is not ignored.
use reolink_station.Prelude.{
  true, false, List, [], ◌∷◌, ◌++◌, map, In, ◌≡◌, ◌⊎◌, inl, inr, refl, ap, ◌∙◌, of_In-map,
  of_In-append, In-append_left, In-append_right,
}
use reolink_station.Web.RecordingsBrowser.{Load, ignored}

abbrev pub Ignored : List Load → Type 0
Ignored ls = (x : Load) → In x ls → x.ignore ≡ true

-- One request at most is not ignored.
abbrev pub OneLive : List Load → Type 0
OneLive [] = Unit {0}
OneLive (l ∷ ls) = ((l.ignore ≡ true) × OneLive ls) ⊎ Ignored ls

pub Ignored-OneLive : (ls : List Load) → Ignored ls → OneLive ls
Ignored-OneLive [] h = tt
Ignored-OneLive (l ∷ ls) h = inr (λ x m. h x (inr m))

pub without-Ignored :
    (before : List Load) (l : Load) (after : List Load)
    → Ignored (before ++ l ∷ after)
    → Ignored (before ++ after)
without-Ignored before l after h x m = elim (of_In-append x before after m) [
  | inl b ↦ h x (In-append_left x before (l ∷ after) b)
  | inr a ↦ h x (In-append_right x before (l ∷ after) (inr a))
]

pub without-OneLive :
    (before : List Load) (l : Load) (after : List Load)
    → OneLive (before ++ l ∷ after)
    → OneLive (before ++ after)
without-OneLive [] l after (inl (e, o)) = o
without-OneLive [] l after (inr h) = Ignored-OneLive after h
without-OneLive (x ∷ before) l after (inl (e, o)) = inl (e, without-OneLive before l after o)
without-OneLive (x ∷ before) l after (inr h) = inr (without-Ignored before l after h)

-- beside the one that is not ignored
pub others-Ignored :
    (before : List Load) (l : Load) (after : List Load)
    → OneLive (before ++ l ∷ after)
    → l.ignore ≡ false
    → Ignored (before ++ after)
others-Ignored [] l after (inl (e, o)) live = cc (e, live)
others-Ignored [] l after (inr h) live = h
others-Ignored (x ∷ before) l after (inl (e, o)) live = λ y m. elim m [
  | inl same ↦ ap (λ (z : Load). z.ignore) same ∙ e
  | inr n ↦ others-Ignored before l after o live y n
]
others-Ignored (x ∷ before) l after (inr h) live =
    cc (h l (In-append_right l before (l ∷ after) (inl refl)), live)

pub map-Ignored : (ls : List Load) → Ignored (map ignored ls)
map-Ignored ls x m = let (l, n, e) = of_In-map ignored x ls m in ap (λ (z : Load). z.ignore) e
