-- ===== src/Recordings/PathSafety/Below.antt =====
-- The test of `resolveSafe` on two places: the first is the second or lies below it.
use text.Mathlib.Text.{starts_with}
use text.Mathlib.TextEquality.{starts_with_iff}
use text.Mathlib.TextLemmas.{nil-append, cons-append, append_assoc, append-nil}
use reolink_station.Prelude.{
  String, Bool, true, false, of_All-append, List, [], ◌∷◌, ◌++◌, ◌≡◌, ◌⊎◌, refl, sym, ap, ◌∙◌,
  same_text, join_text, if◌then◌else◌, Bool-cases, inl, inr, if_false, subst, eq_iff, eq_refl,
}
use reolink_station.Prelude.Split.{is_empty}
use reolink_station.Recordings.PathSafety.{or_root}
use reolink_station.Recordings.PathSafety.Place.{
  slash, segments, walk, place, AllNames, render, rendered, IsUnder,
}
use reolink_station.Recordings.PathSafety.Walk.{
  segments-append, place-append, NoUp, walk-IsUnder, rendered-NoUp, place-render,
}
use reolink_station.Recordings.PathSafety.Render.{place-rendered, render-below, is_empty-append}

pub is_empty-render : (n : String) (ns : List String) → is_empty (render (n ∷ ns)) ≡ false
unfolding render
is_empty-render n ns = is_empty-append (render ns) (String.◌∷◌ slash n) (unfold is_empty in refl)

pub place_root : place "/" ≡ []
unfolding rendered
place_root = place-rendered [] false tt

pub or_root-render : (ns : List String) → AllNames ns → or_root (render ns) ≡ rendered ns false
unfolding or_root render rendered
or_root-render [] h = unfold is_empty in refl
or_root-render (n ∷ ns) h = if_false _ _ _ (is_empty-render n ns)

-- The prefix that is tested for.
pub prefix_of :
    (ns : List String)
    → AllNames ns
    → (if same_text (rendered ns false) "/" then "/" else join_text (rendered ns false) "/")
      ≡ join_text (render ns) "/"
unfolding rendered
prefix_of [] h = unfold render in sym (nil-append "/")
prefix_of (n ∷ ns) h = elim (Bool-cases (same_text (render (n ∷ ns)) "/")) [
  | inl e ↦
      let same = (eq_iff (render (n ∷ ns)) "/").0 e in
      absurd (cc (ap place same ∙ place_root, place-render (n ∷ ns) h))
  | inr e ↦ if_false _ _ _ e
]

pub slash-append : (a t : String) → join_text (join_text a "/") t ≡ join_text a (String.◌∷◌ slash t)
slash-append a t =
    append_assoc a "/" t
    ∙ ap (join_text a) (cons-append slash String.[] t ∙ ap (String.◌∷◌ slash) (nil-append t))

-- A place under the base passes the test.
pub under-accepted :
    (base ns : List String) (f : Bool)
    → AllNames base
    → IsUnder base ns
    → (same_text (rendered ns f) (rendered base false) ≡ true)
      ⊎ (starts_with (rendered ns f) (join_text (render base) "/") ≡ true)
unfolding rendered
under-accepted [] ns f h ([], e) = inl (rw e (eq_refl "/"))
under-accepted (b ∷ base) ns true h ([], e) =
    inr (rw e ((starts_with_iff _ _).1 (String.[], append-nil _)))
under-accepted (b ∷ base) ns false h ([], e) = inl (rw e (eq_refl (render (b ∷ base))))
under-accepted base ns f h (x ∷ below, e) = inr (rw e (go f))
  where
    go :
        (f : Bool)
        → starts_with (rendered ((x ∷ below) ++ base) f) (join_text (render base) "/") ≡ true
    go true =
        let (t, r) = render-below x below base in
        (starts_with_iff _ _).1 (
          join_text t "/",
          slash-append (render base) (join_text t "/")
              ∙ ap (join_text (render base)) (sym (cons-append slash t "/"))
              ∙ sym (append_assoc (render base) (String.◌∷◌ slash t) "/")
              ∙ ap (λ s. join_text s "/") (sym r),
        )
    go false =
        let (t, r) = render-below x below base in
        (starts_with_iff _ _).1 (t, slash-append (render base) t ∙ sym r)

-- A place whose path passes the test is under the base.
pub starts-IsUnder :
    (base ns : List String) (f : Bool)
    → AllNames base
    → AllNames ns
    → starts_with (rendered ns f) (join_text (render base) "/") ≡ true
    → IsUnder base ns
starts-IsUnder base ns f hb hn h =
    let (t, e) = (starts_with_iff (rendered ns f) (join_text (render base) "/")).0 h in
    let path : rendered ns f ≡ join_text (render base) (String.◌∷◌ slash t) =
      sym e ∙ slash-append (render base) t in
    let level : NoUp (segments (render base) ++ segments t) =
      subst NoUp (ap segments path ∙ segments-append (render base) t) (rendered-NoUp ns f hn) in
    let there : walk base (segments t) ≡ ns =
      ap (λ b. walk b (segments t)) (sym (place-render base hb))
      ∙ sym (place-append (render base) t)
      ∙ ap place (sym path)
      ∙ place-rendered ns f hn in
    subst (IsUnder base) there (
      walk-IsUnder base base (segments t)
        (of_All-append (λ x. same_text x ".." ≡ false) (segments (render base)) (segments t)
          level).1
        ([], refl))

pub same-IsUnder :
    (base ns : List String) (f : Bool)
    → AllNames base
    → AllNames ns
    → same_text (rendered ns f) (rendered base false) ≡ true
    → IsUnder base ns
same-IsUnder base ns f hb hn h = (
  [],
  sym (place-rendered ns f hn)
      ∙ ap place ((eq_iff (rendered ns f) (rendered base false)).0 h)
      ∙ place-rendered base false hb,
)
