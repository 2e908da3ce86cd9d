-- ===== src/Controllers/Listing.antt =====
-- The profiles that `list` shows.
use reolink_station.Prelude.{
  String, true, none, some, List, [], ◌∷◌, In, ◌≡◌, ◌⊎◌, ◌↔◌, inl, inr, refl, sym, ap, ◌∙◌,
  Option-cases, map, of_In-map, of_In-append, In-map, In-append_left, In-append_right, subst,
}
use reolink_station.Entities.{CameraShareEntity, CameraProfileEntity}
use reolink_station.Database.{Database, Tables}
use reolink_station.Http.{Result, ok, err, not_found}
use reolink_station.Sharing.{accessible_profile_ids}
use reolink_station.Sharing.Entitled.{WellFormed, profile_found}
use reolink_station.CameraProfiles.{Masked, to_masked, get_masked, load}
use reolink_station.Controllers.{push_masked, list_loop, list}

module _ (db : Database) (t : Tables) where
  get_masked-none : (id : String) → load db id t ≡ none → get_masked db id t ≡ err not_found
  unfolding get_masked
  get_masked-none id e = rw (e, get_masked) refl

  get_masked-some :
      (id : String) (p : CameraProfileEntity)
      → load db id t ≡ some p
      → get_masked db id t ≡ ok (to_masked p)
  unfolding get_masked
  get_masked-some id p e = rw (e, get_masked) refl

  -- The masked profile of a row that one of the ids finds.
  abbrev Found : List String → Masked → Type 0
  Found ids m =
      (id : String) × (p : CameraProfileEntity) × In id ids
      × (load db id t ≡ some p)
      × (m ≡ to_masked p)

  Found-later : (id : String) (ids : List String) (m : Masked) → Found ids m → Found (id ∷ ids) m
  Found-later id ids m (j, p, mem, found, e) = (j, p, inr mem, found, e)

  abbrev Shows : List String → Result (List Masked) → Type 0
  Shows ids r = (out : List Masked) × (r ≡ ok out) × ((m : Masked) → In m out ↔ Found ids m)

  list_loop-Shows : (ids : List String) → Shows ids (list_loop db ids t)
  unfolding list_loop push_masked
  list_loop-Shows [] = ([], refl, λ m. (λ i. elim i [ ], λ q. elim q.2 [ ]))
  list_loop-Shows (id ∷ ids) =
      let (out, e, shown) = list_loop-Shows ids in
      elim (Option-cases (load db id t)) [
        | inl missing ↦ (
          out,
          rw (get_masked-none id missing, e) refl,
          λ m. (
            λ i. Found-later id ids m ((shown m).0 i),
            λ (j, p, mem, found, same). elim mem [
              | inl here ↦ cc (missing, ap (λ x. load db x t) here, found)
              | inr there ↦ (shown m).1 (j, p, there, found, same)
            ],
          ),
        )
        | inr (q, found_q) ↦ (
          to_masked q ∷ out,
          rw (get_masked-some id q found_q, e) refl,
          λ m. (
            λ i. elim i [
              | inl here ↦ (id, q, inl refl, found_q, here)
              | inr there ↦ Found-later id ids m ((shown m).0 there)
            ],
            λ (j, p, mem, found, same). elim mem [
              | inl here ↦
                  let one : some p ≡ some q = sym found ∙ ap (λ x. load db x t) here ∙ found_q in
                  let row : p ≡ q = cc one in inl (same ∙ ap to_masked row)
              | inr there ↦ inr ((shown m).1 (j, p, there, found, same))
            ],
          ),
        )
      ]

  -- The user is the owner of the profile, or it is shared with the user.
  abbrev pub Visible : String → CameraProfileEntity → Type 0
  Visible user_id p =
      (db.uuid.same p.owner_id user_id ≡ true)
      ⊎ ((s : CameraShareEntity) × In s t.shares
          × (db.uuid.same s.camera_profile_id p.id ≡ true)
          × (db.uuid.same s.grantee_id user_id ≡ true))

  abbrev owned_rows : String → List CameraProfileEntity
  owned_rows user_id = db.profiles.find (λ p. db.uuid.same p.owner_id user_id) t.profiles

  abbrev shared_rows : String → List CameraShareEntity
  shared_rows user_id = db.shares.find (λ s. db.uuid.same s.grantee_id user_id) t.shares

  module _ (user_id : String) (w : WellFormed db t) where
    found-Visible :
        (id : String) (p : CameraProfileEntity)
        → In id (accessible_profile_ids db user_id t)
        → load db id t ≡ some p
        → In p t.profiles × Visible user_id p
    unfolding accessible_profile_ids load
    found-Visible id p mem found =
        let hit = db.profiles.find_one_hit _ _ p found in
        elim (of_In-append id (map (λ (q : CameraProfileEntity). q.id) (owned_rows user_id))
          (map (λ (s : CameraShareEntity). s.camera_profile_id) (shared_rows user_id)) mem) [
            | inl owned ↦
                let (q, mq, e) =
                  of_In-map (λ (q : CameraProfileEntity). q.id) id (owned_rows user_id) owned in
                let (held, own) = (db.profiles.in_find _ t.profiles q).0 mq in
                let row = w.profile_key q p held hit.0 (db.uuid.same_sym _ _ (rw e at hit.1)) in
                (
                  hit.0,
                  inl (
                      subst (λ (x : CameraProfileEntity). db.uuid.same x.owner_id user_id ≡ true)
                        row own),
                )
            | inr shared ↦
                let (s, ms, e) =
                  of_In-map (λ (s : CameraShareEntity). s.camera_profile_id) id
                    (shared_rows user_id) shared in
                let (held, grantee) = (db.shares.in_find _ t.shares s).0 ms in
                (hit.0, inr (s, held, db.uuid.same_sym _ _ (rw e at hit.1), grantee))
          ]

    Visible-Found :
        (p : CameraProfileEntity)
        → In p t.profiles
        → Visible user_id p
        → Found (accessible_profile_ids db user_id t) (to_masked p)
    unfolding accessible_profile_ids load
    Visible-Found p m (inl own) = (
      p.id,
      p,
      In-append_left p.id _ _ (
          In-map (λ (q : CameraProfileEntity). q.id) p (owned_rows user_id)
            ((db.profiles.in_find _ t.profiles p).1 (m, own))),
      profile_found db t p.id p w m (db.uuid.same_self p.id),
      refl,
    )
    Visible-Found p m (inr (s, ms, h, grantee)) = (
      s.camera_profile_id,
      p,
      In-append_right s.camera_profile_id _ _ (
          In-map (λ (s : CameraShareEntity). s.camera_profile_id) s (shared_rows user_id)
            ((db.shares.in_find _ t.shares s).1 (ms, grantee))),
      profile_found db t s.camera_profile_id p w m (db.uuid.same_sym _ _ h),
      refl,
    )

  -- Over tables that meet their unique constraints, `list` returns a list, and a masked profile is in
  -- it exactly when it is of a row that the user owns or that is shared with the user.
  pub list-Visible :
      (user_id : String)
      → WellFormed db t
      → (out : List Masked) × (list db user_id t ≡ ok out)
        × ((m : Masked)
            → In m out ↔ (
                (p : CameraProfileEntity) × In p t.profiles
                × Visible user_id p
                × (m ≡ to_masked p)))
  unfolding list
  list-Visible user_id w =
      let (out, e, shown) = list_loop-Shows (accessible_profile_ids db user_id t) in
      (
        out,
        e,
        λ m. (
          λ i.
              let (id, p, mem, found, same) = (shown m).0 i in
              let (held, visible) = found-Visible user_id w id p mem found in
              (p, held, visible, same),
          λ (p, held, visible, same). (shown m).1 (
              subst (Found (accessible_profile_ids db user_id t)) (sym same)
                (Visible-Found user_id w p held visible)),
        ),
      )
