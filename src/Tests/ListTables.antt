-- ===== src/Tests/ListTables.antt =====
-- Repositories over lists, which meet the laws that the models assume.
use Prim.Native.String.{count}
use text.Mathlib.TextLemmas.{length-append}
use reolink_station.Prelude.{
  ◌<◌, String, List, [], ◌∷◌, Bool, true, false, not, Option, none, some, ◌≡◌, ◌≢◌, ◌⊎◌, ◌↔◌, In,
  inl, inr, sym, ap, ◌∙◌, arith, keep_if, In-keep_if, of_In-keep_if, if◌then◌else◌, eq_iff, eq_refl,
  Bool-cases, same_text, join_text,
}
use reolink_station.Tables.{UuidColumn, Repository}

pub same_text_sym : (a b : String) → same_text a b ≡ true → same_text b a ≡ true
same_text_sym a b h = (eq_iff b a).1 (sym ((eq_iff a b).0 h))

pub same_text_trans :
    (a b c : String) → same_text a b ≡ true → same_text b c ≡ true → same_text a c ≡ true
same_text_trans a b c h k = (eq_iff a c).1 ((eq_iff a b).0 h ∙ (eq_iff b c).0 k)

unfoldable pub plain_uuid : UuidColumn
plain_uuid = record {
  same = same_text;
  same_self = eq_refl;
  same_sym = same_text_sym;
  same_trans = same_text_trans;
}

module _ {Row : Type 0} (key : Row → String) where
  unfoldable pub first_of_table : (Row → Bool) → List Row → Option Row
  first_of_table p [] = none
  first_of_table p (x ∷ t) = if p x then some x else first_of_table p t

  pub first-hit :
      (p : Row → Bool) (t : List Row) (r : Row)
      → first_of_table p t ≡ some r
      → In r t × (p r ≡ true)
  unfolding first_of_table
  first-hit p [] r h = cc
  first-hit p (x ∷ t) r h = ground (arith, first-hit p t r)

  pub first-miss :
      (p : Row → Bool) (t : List Row) (r : Row) → first_of_table p t ≡ none → In r t → p r ≡ false
  unfolding first_of_table
  first-miss p [] r h m = elim m [ ]
  first-miss p (x ∷ t) r h (inl e) = ground arith
  first-miss p (x ∷ t) r h (inr m) = ground (arith, first-miss p t r)

  unfoldable pub saved : Row → List Row → List Row
  saved x t = x ∷ keep_if (λ r. not (same_text (key r) (key x))) t

  pub In-saved :
      (x : Row) (t : List Row) (r : Row) → In r (saved x t) ↔ ((r ≡ x) ⊎ (In r t × (key r ≢ key x)))
  unfolding saved
  In-saved x t r = (
    elim [
      | inl e ↦ inl e
      | inr m ↦
          let (held, other) = of_In-keep_if _ r t m in
          inr (held, λ same. let e = (eq_iff (key r) (key x)).1 same in ground arith)
    ],
    elim [
      | inl e ↦ inl e
      | inr (m, ne) ↦ inr (
          In-keep_if _ r t m (elim (Bool-cases (same_text (key r) (key x))) [
            | inl same ↦ absurd (ne ((eq_iff _ _).0 same))
            | inr other ↦ ground arith
          ]))
    ],
  )

  pub In-kept :
      (p : Row → Bool) (t : List Row) (r : Row) → In r (keep_if p t) ↔ (In r t × (p r ≡ true))
  In-kept p t r = (of_In-keep_if p r t, λ h. In-keep_if p r t h.0 h.1)

  pub In-deleted :
      (p : Row → Bool) (t : List Row) (r : Row)
      → In r (keep_if (λ x. not (p x)) t) ↔ (In r t × (p r ≡ false))
  In-deleted p t r = (
    λ m. let (held, other) = of_In-keep_if _ r t m in (held, ground arith),
    λ h. let (held, other) = h in In-keep_if _ r t held (ground arith),
  )

  -- longer than every key
  unfoldable pub long_key : List Row → String
  long_key [] = "0"
  long_key (x ∷ t) = join_text (key x) (long_key t)

  long_key-longer : (t : List Row) → 0 < count (long_key t)
  unfolding long_key
  long_key-longer [] = omega arith
  long_key-longer (x ∷ t) = omega (arith, length-append (key x) (long_key t), long_key-longer t)

  count-long_key : (t : List Row) (r : Row) → In r t → count (key r) < count (long_key t)
  unfolding long_key
  count-long_key [] r m = elim m [ ]
  count-long_key (x ∷ t) r (inl e) =
      rw e (omega (arith, length-append (key x) (long_key t), long_key-longer t))
  count-long_key (x ∷ t) r (inr m) =
      omega (arith, length-append (key x) (long_key t), count-long_key t r m)

  pub long_key-fresh : (t : List Row) (r : Row) → In r t → key r ≢ long_key t
  long_key-fresh t r m e =
      let shorter = count-long_key t r m in
      let same : count (key r) ≡ count (long_key t) = ap count e in omega arith

  unfoldable pub list_repository : Repository Row key
  unfolding first_of_table saved long_key keep_if
  list_repository = record {
    find_one = first_of_table;
    find = keep_if;
    delete = λ p. keep_if (λ x. not (p x));
    save = saved;
    new_key = long_key;
    find_one_hit = first-hit;
    find_one_miss = first-miss;
    in_find = In-kept;
    in_delete = In-deleted;
    in_save = In-saved;
    new_key_fresh = long_key-fresh;
  }
