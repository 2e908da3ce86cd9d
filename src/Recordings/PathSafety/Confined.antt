-- ===== src/Recordings/PathSafety/Confined.antt =====
-- `resolveSafe` accepts a path exactly when it stays in the base directory.
use text.Mathlib.Text.{starts_with}
use reolink_station.Prelude.{
  String, Bool, true, false, List, [], ◌∷◌, ◌≡◌, ◌⊎◌, ◌↔◌, refl, sym, ap, ◌∙◌, same_text, join_text,
  Bool-cases, inl, inr, if_true, if_false, subst,
}
use reolink_station.Prelude.Split.{is_empty, split_at}
use reolink_station.Http.{ok, err, forbidden}
use reolink_station.Recordings.PathSafety.{
  PosixPath, given, strip_slashes, or_root, resolve_in, resolve_safe,
}
use reolink_station.Recordings.PathSafety.Place.{
  slash, segments, enter, walk, place, AllNames, render, rendered, starts_slash, ends_slash,
  IsUnder,
}
use reolink_station.Recordings.PathSafety.Walk.{place-append, place-AllNames}
use reolink_station.Recordings.PathSafety.Render.{
  strip-rendered, ends-rendered, ends-append, starts-rendered, starts-append, place-rendered,
}
use reolink_station.Recordings.PathSafety.Below.{
  is_empty-render, or_root-render, prefix_of, under-accepted, starts-IsUnder, same-IsUnder,
}

module _ (path : PosixPath) where
  -- A normal path stays as it is.
  normalize-rendered :
      (ns : List String) (f : Bool) → AllNames ns → path.normalize (rendered ns f) ≡ rendered ns f
  normalize-rendered [] f h =
      path.normalize_lem (rendered [] f) (starts-rendered [] f)
      ∙ ap (λ p. rendered p (ends_slash (rendered [] f))) (place-rendered [] f h)
      ∙ unfold rendered in refl
  normalize-rendered (n ∷ ns) f h =
      path.normalize_lem (rendered (n ∷ ns) f) (starts-rendered (n ∷ ns) f)
      ∙ ap (λ p. rendered p (ends_slash (rendered (n ∷ ns) f))) (place-rendered (n ∷ ns) f h)
      ∙ ap (rendered (n ∷ ns)) (ends-rendered n ns f h)

  is_empty-rendered : (ns : List String) → is_empty (rendered ns false) ≡ false
  unfolding rendered
  is_empty-rendered [] = unfold is_empty in refl
  is_empty-rendered (n ∷ ns) = is_empty-render n ns

  -- what `join` and `normalize` make of a base and a path
  join-rendered :
      (base : List String) (rel : String)
      → AllNames base
      → path.normalize (path.join (rendered base false) rel)
        ≡ rendered (walk base (segments rel)) (ends_slash rel)
  join-rendered base String.[] h =
      let empty : is_empty String.[] ≡ true = unfold is_empty in refl in
      ap path.normalize (
        path.join_lem (rendered base false) String.[] (is_empty-rendered base)
        ∙ if_true _ _ _ empty
        ∙ normalize-rendered base false h)
      ∙ normalize-rendered base false h
      ∙ unfold walk segments split_at enter is_empty ends_slash in refl
  join-rendered base (String.◌∷◌ c r) h =
      let rel = String.◌∷◌ c r in
      let joined = join_text (rendered base false) (String.◌∷◌ slash rel) in
      let there : place joined ≡ walk base (segments rel) =
        place-append (rendered base false) rel
        ∙ ap (λ b. walk b (segments rel)) (place-rendered base false h) in
      let last : ends_slash joined ≡ ends_slash rel =
        ends-append (rendered base false) (String.◌∷◌ slash rel) (unfold is_empty in refl)
        ∙ unfold ends_slash is_empty in refl in
      let full : is_empty rel ≡ false = unfold is_empty in refl in
      ap path.normalize (
        path.join_lem (rendered base false) rel (is_empty-rendered base)
        ∙ if_false _ _ _ full
        ∙ path.normalize_lem joined (
            starts-append (rendered base false) (String.◌∷◌ slash rel)
              (starts-rendered base false)))
      ∙ normalize-rendered (place joined) (ends_slash joined) (place-AllNames joined)
      ∙ (λ i. rendered (there i) (last i))

  -- `resolveSafe` on the place of the base directory
  base-rendered :
      (base_path : String)
      → starts_slash base_path ≡ true
      → or_root (strip_slashes (path.normalize base_path)) ≡ rendered (place base_path) false
  base-rendered base_path h =
      ap (λ s. or_root (strip_slashes s)) (path.normalize_lem base_path h)
      ∙ ap or_root
          (strip-rendered (place base_path) (ends_slash base_path) (place-AllNames base_path))
      ∙ or_root-render (place base_path) (place-AllNames base_path)

  Accepted : List String → List String → Bool → Type 0
  Accepted base ns f =
      (same_text (rendered ns f) (rendered base false) ≡ true)
      ⊎ (starts_with (rendered ns f) (join_text (render base) "/") ≡ true)

  module _ (base : List String) (rel : String) (h : AllNames base)
      (relative : path.is_absolute rel ≡ false) where
    abbrev goal : List String
    goal = walk base (segments rel)

    goal-AllNames : AllNames goal
    goal-AllNames =
        subst AllNames
          (place-append (rendered base false) rel
            ∙ ap (λ b. walk b (segments rel)) (place-rendered base false h))
          (place-AllNames (join_text (rendered base false) (String.◌∷◌ slash rel)))

    resolve_in-under :
        IsUnder base goal
        → resolve_in path (rendered base false) rel ≡ ok (rendered goal (ends_slash rel))
    unfolding resolve_in
    resolve_in-under u = elim (under-accepted base goal (ends_slash rel) h u) [
      | inl e ↦ rw (relative, join-rendered base rel h, prefix_of base h, e) refl
      | inr e ↦
          elim (Bool-cases (same_text (rendered goal (ends_slash rel)) (rendered base false))) [
            | inl f ↦ rw (relative, join-rendered base rel h, prefix_of base h, f) refl
            | inr f ↦ rw (relative, join-rendered base rel h, prefix_of base h, f, e) refl
          ]
    ]

    resolve_in-ok :
        (r : String)
        → resolve_in path (rendered base false) rel ≡ ok r
        → IsUnder base goal × (r ≡ rendered goal (ends_slash rel))
    unfolding resolve_in
    resolve_in-ok r e =
        elim (Bool-cases (same_text (rendered goal (ends_slash rel)) (rendered base false))) [
          | inl f ↦
              let u = same-IsUnder base goal (ends_slash rel) h goal-AllNames f in
              (u, cc (e, resolve_in-under u))
          | inr f ↦
              elim (Bool-cases
                (starts_with (rendered goal (ends_slash rel)) (join_text (render base) "/"))) [
                  | inl g ↦
                      let u = starts-IsUnder base goal (ends_slash rel) h goal-AllNames g in
                      (u, cc (e, resolve_in-under u))
                  | inr g ↦
                      absurd
                        (cc (rw (relative, join-rendered base rel h, prefix_of base h, f, g) at e))
                ]
        ]

  resolve_safe-given :
      (base_path rel : String)
      → starts_slash base_path ≡ true
      → resolve_safe path base_path (given rel)
        ≡ resolve_in path (rendered (place base_path) false) rel
  unfolding resolve_safe
  resolve_safe-given base_path rel h = ap (λ b. resolve_in path b rel) (base-rendered base_path h)

  resolve_in-absolute :
      (base rel : String) → path.is_absolute rel ≡ true → resolve_in path base rel ≡ err forbidden
  unfolding resolve_in
  resolve_in-absolute base rel h = rw h refl

  -- For an absolute base directory, `resolve_safe` accepts a path exactly when it is relative and
  -- the place that it names from the base is the base or lies below it, and it returns the normal
  -- path of that place.
  pub resolve_safe_iff :
      (base_path rel r : String)
      → starts_slash base_path ≡ true
      → (resolve_safe path base_path (given rel) ≡ ok r) ↔ (
          (starts_slash rel ≡ false)
          × IsUnder (place base_path) (place (join_text base_path (String.◌∷◌ slash rel)))
          × (r ≡ rendered (place (join_text base_path (String.◌∷◌ slash rel))) (ends_slash rel)))
  resolve_safe_iff base_path rel r h =
      let base = place base_path in
      let names = place-AllNames base_path in
      let there = place-append base_path rel in
      let begins = path.is_absolute_lem rel in
      let begin = resolve_safe-given base_path rel h in
      elim (Bool-cases (path.is_absolute rel)) [
        | inl e ↦ (
          λ q.
              let no = resolve_in-absolute (rendered base false) rel e in
              absurd (cc (q, begin, no)),
          λ q. let plain = q.0 in absurd (cc (e, begins, plain)),
        )
        | inr e ↦ (
          λ q.
              let (u, v) = resolve_in-ok base rel names e r (sym begin ∙ q) in
              (sym begins ∙ e, rw there u, rw there v),
          λ q.
              let u : IsUnder base (walk base (segments rel)) = rw there at q.1 in
              let v : r ≡ rendered (walk base (segments rel)) (ends_slash rel) = rw there at q.2 in
              begin ∙ resolve_in-under base rel names e u ∙ ap ok (sym v),
        )
      ]
