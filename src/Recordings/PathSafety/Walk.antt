-- ===== src/Recordings/PathSafety/Walk.antt =====
-- Walks over the segments of a path.
use Prim.Native.Char.{Char, code}
use reolink_station.Prelude.{
  String, All, All-append, Bool, true, false, ◌||◌, List, [], ◌∷◌, ◌++◌, ◌≡◌, refl, ap, ◌∙◌, ◌==◌,
  same_text, join_text, Bool-cases, inl, inr,
}
use reolink_station.Prelude.Split.{
  is_empty, split_at, push_front, is_free, split_at-append, split_at-is_free,
}
use reolink_station.Recordings.PathSafety.Place.{
  slash, segments, parent, enter, walk, place, is_name, AllNames, render, rendered, IsUnder,
}

pub walk-append : (ns xs ys : List String) → walk ns (xs ++ ys) ≡ walk (walk ns xs) ys
unfolding walk
walk-append ns [] ys = refl
walk-append ns (x ∷ xs) ys = walk-append (enter ns x) xs ys

pub segments-append :
    (a t : String) → segments (join_text a (String.◌∷◌ slash t)) ≡ segments a ++ segments t
unfolding segments
segments-append a t = split_at-append slash a t

-- Behind a slash a path goes on from where it was.
pub place-append :
    (a t : String) → place (join_text a (String.◌∷◌ slash t)) ≡ walk (place a) (segments t)
unfolding place
place-append a t = ap (walk []) (segments-append a t) ∙ walk-append [] (segments a) (segments t)

pub is_name-enter : (ns : List String) (n : String) → is_name n ≡ true → enter ns n ≡ n ∷ ns
unfolding is_name enter
is_name-enter ns n h = elim (Bool-cases (is_empty n || same_text n ".")) [
  | inl e ↦ absurd (cc (rw e at h))
  | inr e ↦ elim (Bool-cases (same_text n "..")) [
    | inl f ↦ absurd (cc (rw (e, f) at h))
    | inr f ↦ rw (e, f) refl
  ]
]

pub is_name-is_free : (n : String) → is_name n ≡ true → is_free b'/' n ≡ true
unfolding is_name
is_name-is_free n h = elim (Bool-cases (is_empty n || same_text n ".")) [
  | inl e ↦ absurd (cc (rw e at h))
  | inr e ↦ elim (Bool-cases (same_text n "..")) [
    | inl f ↦ absurd (cc (rw (e, f) at h))
    | inr f ↦ rw (e, f) at h
  ]
]

pub is_name-is_empty : (n : String) → is_name n ≡ true → is_empty n ≡ false
unfolding is_name
is_name-is_empty n h = elim (Bool-cases (is_empty n)) [
  | inl e ↦ absurd (cc (rw e at h))
  | inr e ↦ e
]

pub segments-is_name : (n : String) → is_name n ≡ true → segments n ≡ n ∷ []
unfolding segments
segments-is_name n h = split_at-is_free b'/' n (is_name-is_free n h)

-- The path of a place names that place.
pub place-render : (ns : List String) → AllNames ns → place (render ns) ≡ ns
unfolding render
place-render [] h = unfold place segments split_at walk enter is_empty in refl
place-render (n ∷ ns) (h, hs) =
    place-append (render ns) n
    ∙ ap (λ l. walk l (segments n)) (place-render ns hs)
    ∙ ap (walk ns) (segments-is_name n h)
    ∙ unfold walk in is_name-enter ns n h

AllFree : List String → Type 0
AllFree = All (λ x. is_free b'/' x ≡ true)

push_front-AllFree :
    (c : Char) (l : List String) → (code c == b'/') ≡ false → AllFree l → AllFree (push_front c l)
unfolding AllFree push_front is_free
push_front-AllFree c [] other h = (rw other refl, tt)
push_front-AllFree c (x ∷ l) other (h, hs) = (rw (other, h) refl, hs)

segments-AllFree : (p : String) → AllFree (segments p)
unfolding AllFree segments split_at is_free
segments-AllFree String.[] = (refl, tt)
segments-AllFree (String.◌∷◌ c p) = elim (Bool-cases (code c == b'/')) [
  | inl e ↦ rw e (refl, segments-AllFree p)
  | inr e ↦ rw e (push_front-AllFree c (segments p) e (segments-AllFree p))
]

parent-AllNames : (ns : List String) → AllNames ns → AllNames (parent ns)
parent-AllNames [] h = h
parent-AllNames (n ∷ ns) h = h.1

enter-AllNames :
    (ns : List String) (n : String) → is_free b'/' n ≡ true → AllNames ns → AllNames (enter ns n)
unfolding enter
enter-AllNames ns n free h = elim (Bool-cases (is_empty n || same_text n ".")) [
  | inl e ↦ rw e h
  | inr e ↦ elim (Bool-cases (same_text n "..")) [
    | inl f ↦ rw (e, f) (parent-AllNames ns h)
    | inr f ↦ rw (e, f) (unfold is_name in rw (e, f) free, h)
  ]
]

walk-AllNames : (ns ss : List String) → AllFree ss → AllNames ns → AllNames (walk ns ss)
unfolding walk AllFree
walk-AllNames ns [] free h = h
walk-AllNames ns (s ∷ ss) (f, fs) h = walk-AllNames (enter ns s) ss fs (enter-AllNames ns s f h)

-- A place is made of names.
pub place-AllNames : (p : String) → AllNames (place p)
unfolding place
place-AllNames p = walk-AllNames [] (segments p) (segments-AllFree p) tt

-- A segment that does not go up.
abbrev pub NoUp : List String → Type 0
NoUp = All (λ x. same_text x ".." ≡ false)

enter-IsUnder :
    (base ns : List String) (n : String)
    → same_text n ".." ≡ false
    → IsUnder base ns
    → IsUnder base (enter ns n)
unfolding enter
enter-IsUnder base ns n level (below, e) = elim (Bool-cases (is_empty n || same_text n ".")) [
  | inl f ↦ rw f (below, e)
  | inr f ↦ rw (f, level) (n ∷ below, ap (λ l. n ∷ l) e)
]

-- A walk that never goes up stays below.
pub walk-IsUnder :
    (base ns ss : List String) → NoUp ss → IsUnder base ns → IsUnder base (walk ns ss)
unfolding walk
walk-IsUnder base ns [] level u = u
walk-IsUnder base ns (s ∷ ss) (l, ls) u =
    walk-IsUnder base (enter ns s) ss ls (enter-IsUnder base ns s l u)

is_name-level : (n : String) → is_name n ≡ true → same_text n ".." ≡ false
unfolding is_name
is_name-level n h = elim (Bool-cases (is_empty n || same_text n ".")) [
  | inl e ↦ absurd (cc (rw e at h))
  | inr e ↦ elim (Bool-cases (same_text n "..")) [
    | inl f ↦ absurd (cc (rw (e, f) at h))
    | inr f ↦ f
  ]
]

-- The path of a place does not go up.
pub render-NoUp : (ns : List String) → AllNames ns → NoUp (segments (render ns))
unfolding render
render-NoUp [] h = unfold segments split_at in (refl, tt)
render-NoUp (n ∷ ns) (h, hs) = rw (segments-append (render ns) n) (
    All-append (λ x. same_text x ".." ≡ false) (segments (render ns)) (segments n)
      (render-NoUp ns hs) (rw (segments-is_name n h) (is_name-level n h, tt)))

pub rendered-NoUp : (ns : List String) (f : Bool) → AllNames ns → NoUp (segments (rendered ns f))
unfolding rendered
rendered-NoUp [] f h = unfold segments split_at in (refl, (refl, tt))
rendered-NoUp (n ∷ ns) true h = rw (segments-append (render (n ∷ ns)) "") (
    All-append (λ x. same_text x ".." ≡ false) (segments (render (n ∷ ns))) (segments "")
      (render-NoUp (n ∷ ns) h) (unfold segments split_at in (refl, tt)))
rendered-NoUp (n ∷ ns) false h = render-NoUp (n ∷ ns) h
