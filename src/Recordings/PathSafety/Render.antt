-- ===== src/Recordings/PathSafety/Render.antt =====
-- The path of a place: its first and last characters, and the places below it.
use Prim.Native.Char.{Char, code}
use text.Mathlib.TextLemmas.{nil-append, cons-append, append_assoc}
use reolink_station.Prelude.{
  String, Bool, true, false, not, ◌&&◌, List, [], ◌∷◌, ◌++◌, ◌≡◌, refl, sym, ap, ◌∙◌, ◌==◌,
  join_text, Bool-cases, inl, inr, arith, both_true,
}
use reolink_station.Prelude.Split.{is_empty, split_at, is_free}
use reolink_station.Recordings.PathSafety.{strip_slashes}
use reolink_station.Recordings.PathSafety.Place.{
  slash, segments, enter, walk, place, is_name, AllNames, render, rendered, starts_slash,
  ends_slash,
}
use reolink_station.Recordings.PathSafety.Walk.{
  place-append, place-render, is_name-is_free, is_name-is_empty,
}

not_slash :
    (c : Char) (s : String) → is_free b'/' (String.◌∷◌ c s) ≡ true → (code c == b'/') ≡ false
unfolding is_free
not_slash c s h = ground (arith, (both_true (not (code c == b'/')) (is_free b'/' s) h).0)

rest_free : (c : Char) (s : String) → is_free b'/' (String.◌∷◌ c s) ≡ true → is_free b'/' s ≡ true
unfolding is_free
rest_free c s h = (both_true (not (code c == b'/')) (is_free b'/' s) h).1

strip-is_free : (n : String) → is_free b'/' n ≡ true → strip_slashes n ≡ n
unfolding strip_slashes
strip-is_free String.[] h = refl
strip-is_free (String.◌∷◌ c s) h = rw (strip-is_free s (rest_free c s h), not_slash c s h) refl

ends-is_free : (n : String) → is_free b'/' n ≡ true → ends_slash n ≡ false
unfolding ends_slash
ends-is_free String.[] h = refl
ends-is_free (String.◌∷◌ c s) h = elim (Bool-cases (is_empty s)) [
  | inl e ↦ rw e (not_slash c s h)
  | inr e ↦ rw e (ends-is_free s (rest_free c s h))
]

pub is_empty-append : (s t : String) → is_empty t ≡ false → is_empty (join_text s t) ≡ false
unfolding is_empty
is_empty-append String.[] t h = ap is_empty (nil-append t) ∙ h
is_empty-append (String.◌∷◌ c s) t h = ap is_empty (cons-append c s t)

strip-append :
    (s t : String)
    → is_empty t ≡ false
    → strip_slashes t ≡ t
    → strip_slashes (join_text s t) ≡ join_text s t
unfolding strip_slashes
strip-append String.[] t full h = ap strip_slashes (nil-append t) ∙ h ∙ sym (nil-append t)
strip-append (String.◌∷◌ c s) t full h =
    let more = is_empty-append s t full in
    let off : (code c == b'/' && is_empty (join_text s t)) ≡ false = ground (arith, more) in
    ap strip_slashes (cons-append c s t)
    ∙ rw (strip-append s t full h, off) (sym (cons-append c s t))

pub ends-append : (s t : String) → is_empty t ≡ false → ends_slash (join_text s t) ≡ ends_slash t
unfolding ends_slash
ends-append String.[] t full = ap ends_slash (nil-append t)
ends-append (String.◌∷◌ c s) t full =
    ap ends_slash (cons-append c s t) ∙ rw (is_empty-append s t full) (ends-append s t full)

-- A slash and a name.
module _ (n : String) (h : is_name n ≡ true) where
  strip-name : strip_slashes (String.◌∷◌ slash n) ≡ String.◌∷◌ slash n
  unfolding strip_slashes
  strip-name = rw (strip-is_free n (is_name-is_free n h), is_name-is_empty n h) refl

  ends-name : ends_slash (String.◌∷◌ slash n) ≡ false
  unfolding ends_slash
  ends-name = rw (is_name-is_empty n h) (ends-is_free n (is_name-is_free n h))

strip-render : (ns : List String) → AllNames ns → strip_slashes (render ns) ≡ render ns
unfolding render
strip-render [] h = unfold strip_slashes in refl
strip-render (n ∷ ns) (h, hs) =
    strip-append (render ns) (String.◌∷◌ slash n) (unfold is_empty in refl) (strip-name n h)

strip-slash : (s : String) → strip_slashes (join_text s "/") ≡ strip_slashes s
unfolding strip_slashes
strip-slash String.[] = ap strip_slashes (nil-append "/") ∙ unfold is_empty in refl
strip-slash (String.◌∷◌ c s) = ap strip_slashes (cons-append c s "/") ∙ rw (strip-slash s) refl

pub strip-rendered :
    (ns : List String) (f : Bool) → AllNames ns → strip_slashes (rendered ns f) ≡ render ns
unfolding rendered
strip-rendered [] f h = unfold strip_slashes is_empty render in refl
strip-rendered (n ∷ ns) true h = strip-slash (render (n ∷ ns)) ∙ strip-render (n ∷ ns) h
strip-rendered (n ∷ ns) false h = strip-render (n ∷ ns) h

pub ends-rendered :
    (n : String) (ns : List String) (f : Bool)
    → AllNames (n ∷ ns)
    → ends_slash (rendered (n ∷ ns) f) ≡ f
unfolding rendered
ends-rendered n ns true h =
    ends-append (render (n ∷ ns)) "/" (unfold is_empty in refl) ∙ unfold ends_slash is_empty in refl
ends-rendered n ns false h =
    unfold render in
    (ends-append (render ns) (String.◌∷◌ slash n) (unfold is_empty in refl) ∙ ends-name n h.0)

pub starts-append : (s t : String) → starts_slash s ≡ true → starts_slash (join_text s t) ≡ true
unfolding starts_slash
starts-append String.[] t h = cc
starts-append (String.◌∷◌ c s) t h = ap starts_slash (cons-append c s t) ∙ h

pub starts-render : (n : String) (ns : List String) → starts_slash (render (n ∷ ns)) ≡ true
unfolding render
starts-render n [] = ap starts_slash (nil-append (String.◌∷◌ slash n)) ∙ unfold starts_slash in refl
starts-render n (m ∷ ns) = starts-append (render (m ∷ ns)) (String.◌∷◌ slash n) (starts-render m ns)

pub starts-rendered : (ns : List String) (f : Bool) → starts_slash (rendered ns f) ≡ true
unfolding rendered
starts-rendered [] f = unfold starts_slash in refl
starts-rendered (n ∷ ns) true = starts-append (render (n ∷ ns)) "/" (starts-render n ns)
starts-rendered (n ∷ ns) false = starts-render n ns

pub place-rendered : (ns : List String) (f : Bool) → AllNames ns → place (rendered ns f) ≡ ns
unfolding rendered
place-rendered [] f h = unfold place segments split_at walk enter is_empty in refl
place-rendered (n ∷ ns) true h =
    place-append (render (n ∷ ns)) ""
    ∙ ap (λ l. walk l (segments "")) (place-render (n ∷ ns) h)
    ∙ unfold walk segments split_at enter is_empty in refl
place-rendered (n ∷ ns) false h = place-render (n ∷ ns) h

-- The path of a place strictly below another one begins with that one's and a slash.
pub render-below :
    (b : String) (below base : List String)
    → (t : String) × (render ((b ∷ below) ++ base) ≡ join_text (render base) (String.◌∷◌ slash t))
unfolding render
render-below b [] base = (b, refl)
render-below b (c ∷ below) base =
    let (t, e) = render-below c below base in
    (
      join_text t (String.◌∷◌ slash b),
      ap (λ s. join_text s (String.◌∷◌ slash b)) e
          ∙ append_assoc (render base) (String.◌∷◌ slash t) (String.◌∷◌ slash b)
          ∙ ap (join_text (render base)) (cons-append slash t (String.◌∷◌ slash b)),
    )
