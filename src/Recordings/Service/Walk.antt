-- ===== src/Recordings/Service/Walk.antt =====
-- What `walk` does, by the record of its calls.
use reolink_station.Prelude.{
  ℕ, zero, suc, ◌+◌, String, Bool, true, false, Option, none, some, List, [], ◌∷◌, ◌≡◌, inl, inr,
  refl, ap, In, arith, Bool-cases, Option-cases, if◌then◌else◌,
}
use reolink_station.Http.{Result}
use reolink_station.CameraProfiles.{Connection}
use reolink_station.Recordings.PathSafety.{PosixPath}
use reolink_station.Recordings.Remote.{
  Config, FileInfo, Sftp, SftpCall, listed, list_failed, deleted, State, below, is_old,
  with_listing,
}
use reolink_station.Recordings.Service.{
  Walked, out_of_fuel, threw, finished, and_walk, call_list, call_delete, walk_items, walk,
}
use reolink_station.Recordings.Service.Log.{
  Grows, successes, Item, Item-Grows, Known, Justified, Whole, NewWhole, cons-Justified,
  NewWhole-trans,
}

module _ {S : Type 0} (path : PosixPath) (sftp : Sftp S)
    (profiles : String → Result (Option Connection)) (cfg : Config) (now days : ℕ)
    (root : String) where
  -- What is known before a walk that has deleted `n` files so far.
  abbrev Before : ℕ → State S → Type 0
  Before n st = Justified now days root st.calls × (successes st.calls ≡ n)

  -- What is known behind it; `T` is what it has done if it came to its end.
  abbrev pub After : List SftpCall → (List SftpCall → Type 0) → Walked S → Type 0
  After old T out_of_fuel = Unit {0}
  After old T (threw st) = Grows old st.calls × Justified now days root st.calls
  After old T (finished n st) =
      Grows old st.calls
      × Justified now days root st.calls
      × (successes st.calls ≡ n)
      × NewWhole now days root old st.calls
      × T st.calls

  abbrev pub Visited : String → List SftpCall → Type 0
  Visited dir log = (items : List FileInfo) × In (listed dir items) log

  -- a step before the rest of a walk
  After-Grows :
      (old mid : List SftpCall) (T U : List SftpCall → Type 0) (w : Walked S)
      → Grows old mid
      → NewWhole now days root old mid
      → ((log : List SftpCall) → Grows mid log → T log → U log)
      → After mid T w
      → After old U w
  After-Grows old mid T U out_of_fuel g h k a = tt
  After-Grows old mid T U (threw st) g h k (g', j) = ((λ e m. g' e (g e m)), j)
  After-Grows old mid T U (finished n st) g h k (g', j, s, w, t) = (
    (λ e m. g' e (g e m)),
    j,
    s,
    NewWhole-trans now days root old mid st.calls g' h w,
    k st.calls g' t,
  )

  module _ (sub : String → ℕ → State S → Walked S)
      (sub-After : (d : String) (n : ℕ) (st : State S)
        → Known now days root st.calls d
        → Before n st
        → After st.calls (Visited d) (sub d n st)) where
    abbrev rest : String → List FileInfo → ℕ → State S → Walked S
    rest dir items n st = walk_items path sftp profiles cfg now days sub dir items n st

    items_dir :
        (dir : String) (i : FileInfo) (items : List FileInfo) (n : ℕ) (st : State S)
        → i.is_dir ≡ true
        → rest dir (i ∷ items) n st
          ≡ and_walk (sub (below dir i.name) n st) (λ n' st'. rest dir items n' st')
    unfolding walk_items
    items_dir dir i items n st e = rw (e, walk_items) refl

    items_old :
        (dir : String) (i : FileInfo) (items : List FileInfo) (n : ℕ) (st : State S)
        → i.is_dir ≡ false
        → is_old now days i ≡ true
        → rest dir (i ∷ items) n st
          ≡ rest dir items
              (if (call_delete path sftp profiles cfg (below dir i.name) st).0 then n + 1 else n)
              (call_delete path sftp profiles cfg (below dir i.name) st).1
    unfolding walk_items
    items_old dir i items n st e o = rw (e, o, walk_items) refl

    items_young :
        (dir : String) (i : FileInfo) (items : List FileInfo) (n : ℕ) (st : State S)
        → i.is_dir ≡ false
        → is_old now days i ≡ false
        → rest dir (i ∷ items) n st ≡ rest dir items n st
    unfolding walk_items
    items_young dir i items n st e o = rw (e, o, walk_items) refl

    abbrev Rest : String → List FileInfo → Type 0
    Rest dir items =
        (n : ℕ) (st : State S)
        → ((i : FileInfo) → In i items → Item st.calls dir i)
        → Before n st
        → After st.calls (λ log. Whole now days root log dir items) (rest dir items n st)

    -- the items behind a directory that was walked
    behind_dir :
        (dir : String) (i : FileInfo) (items : List FileInfo) (st : State S) (w : Walked S)
        → Rest dir items
        → ((x : FileInfo) → In x items → Item st.calls dir x)
        → i.is_dir ≡ true
        → After st.calls (Visited (below dir i.name)) w
        → After st.calls
            (λ log. Whole now days root log dir (i ∷ items))
            (and_walk w (λ n' st'. rest dir items n' st'))
    behind_dir dir i items st out_of_fuel ih listing e a = tt
    behind_dir dir i items st (threw st') ih listing e a = a
    behind_dir dir i items st (finished n st') ih listing e (g, j, s, w, (seen, m)) =
        After-Grows st.calls st'.calls (λ log. Whole now days root log dir items)
          (λ log. Whole now days root log dir (i ∷ items)) (rest dir items n st') g w
          (λ log g' t x mx. elim mx [
            | inl same ↦
                rw same
                  (λ d. (seen, g' (listed (below dir i.name) seen) m), λ f o. absurd (cc (e, f)))
            | inr old ↦ t x old
          ])
          (ih n st' (λ x mx. Item-Grows st.calls st'.calls dir x g (listing x mx)) (j, s))

    successes-deleted :
        (p : String) (done : Bool) (log : List SftpCall) (n : ℕ)
        → successes log ≡ n
        → successes (deleted p done ∷ log) ≡ (if done then n + 1 else n)
    successes-deleted p true log n e = omega arith
    successes-deleted p false log n e = e

    not_listed :
        (p : String) (done : Bool) (log : List SftpCall)
        → NewWhole now days root log (deleted p done ∷ log)
    not_listed p done log d items (inl e) = absurd (cc e)
    not_listed p done log d items (inr m) = inl m

    -- the items behind an old file
    behind_file :
        (dir : String) (i : FileInfo) (items : List FileInfo) (n : ℕ) (st : State S)
        → Rest dir items
        → ((x : FileInfo) → In x (i ∷ items) → Item st.calls dir x)
        → i.is_dir ≡ false
        → is_old now days i ≡ true
        → Before n st
        → After st.calls
            (λ log. Whole now days root log dir (i ∷ items))
            (rest dir items
              (if (call_delete path sftp profiles cfg (below dir i.name) st).0 then n + 1 else n)
              (call_delete path sftp profiles cfg (below dir i.name) st).1)
    unfolding call_delete
    behind_file dir i items n st ih listing e o (j, s) =
        let done = (sftp.delete cfg (below dir i.name) st.remote).0 in
        let call = deleted (below dir i.name) done in
        let st' = (call_delete path sftp profiles cfg (below dir i.name) st).1 in
        After-Grows st.calls (call ∷ st.calls) (λ log. Whole now days root log dir items)
          (λ log. Whole now days root log dir (i ∷ items))
          (rest dir items (if done then n + 1 else n) st') (λ x m. inr m)
          (not_listed (below dir i.name) done st.calls)
          (λ log g' t x mx. elim mx [
            | inl same ↦ rw same (λ d. absurd (cc (d, e)), λ f q. (done, g' call (inl refl)))
            | inr old ↦ t x old
          ])
          (ih (if done then n + 1 else n) st'
            (λ x mx.
              Item-Grows st.calls (call ∷ st.calls) dir x (λ y m. inr m) (listing x (inr mx)))
            (
              cons-Justified now days root call st.calls (dir, i, listing i (inl refl), e, o, refl)
                  j,
              successes-deleted (below dir i.name) done st.calls n s,
            ))

    items-After : (dir : String) (items : List FileInfo) → Rest dir items
    unfolding walk_items
    items-After dir [] n st listing (j, s) =
        ((λ e m. m), j, s, (λ d is m. inl m), (λ i m. elim m [ ]))
    items-After dir (i ∷ items) n st listing b = elim (Bool-cases i.is_dir) [
      | inl e ↦
          let found =
            sub-After (below dir i.name) n st (inr (dir, i, listing i (inl refl), e, refl)) b in
          rw (items_dir dir i items n st e) (
            behind_dir dir i items st (sub (below dir i.name) n st) (items-After dir items)
              (λ x m. listing x (inr m)) e found)
      | inr e ↦ elim (Bool-cases (is_old now days i)) [
        | inl o ↦
            rw (items_old dir i items n st e o)
              (behind_file dir i items n st (items-After dir items) listing e o b)
        | inr y ↦ rw (items_young dir i items n st e y) (
            After-Grows st.calls st.calls (λ log. Whole now days root log dir items)
              (λ log. Whole now days root log dir (i ∷ items)) (rest dir items n st) (λ x m. m)
              (λ d is m. inl m)
              (λ log g' t x mx. elim mx [
                | inl same ↦ rw same (λ d. absurd (cc (d, e)), λ f o. absurd (cc (o, y)))
                | inr old ↦ t x old
              ])
              (items-After dir items n st (λ x m. listing x (inr m)) b))
      ]
    ]

  abbrev pub listing_state : String → Option (List FileInfo) → State S → State S
  listing_state dir o st = record st {
    remote = (sftp.list cfg dir st.remote).1;
    calls = with_listing dir o st.calls;
  }

  abbrev pub after_list : String → List FileInfo → State S → State S
  after_list dir items st = record st {
    remote = (sftp.list cfg dir st.remote).1;
    calls = listed dir items ∷ st.calls;
  }

  pub walk-none :
      (fuel : ℕ) (dir : String) (n : ℕ) (st : State S)
      → (sftp.list cfg dir st.remote).0 ≡ none
      → walk path sftp profiles cfg now days (suc fuel) dir n st
        ≡ threw (record st {
          remote = (sftp.list cfg dir st.remote).1;
          calls = list_failed dir ∷ st.calls;
        })
  unfolding walk call_list with_listing
  walk-none fuel dir n st e = rw (e, walk) (ap (λ o. threw (listing_state dir o st)) e)

  pub walk-some :
      (fuel : ℕ) (dir : String) (n : ℕ) (st : State S) (items : List FileInfo)
      → (sftp.list cfg dir st.remote).0 ≡ some items
      → walk path sftp profiles cfg now days (suc fuel) dir n st
        ≡ walk_items path sftp profiles cfg now days
            (walk path sftp profiles cfg now days fuel)
            dir
            items
            n
            (after_list dir items st)
  unfolding walk call_list with_listing
  walk-some fuel dir n st items e =
      rw (e, walk)
        (ap
          (λ o.
            walk_items path sftp profiles cfg now days (walk path sftp profiles cfg now days fuel)
              dir items n (listing_state dir o st))
          e)

  -- The items of a directory that was listed have all been handled.
  behind_list :
      (dir : String) (items : List FileInfo) (old : List SftpCall) (w : Walked S)
      → After (listed dir items ∷ old) (λ log. Whole now days root log dir items) w
      → After old (Visited dir) w
  behind_list dir items old out_of_fuel a = tt
  behind_list dir items old (threw st) (g, j) = ((λ e m. g e (inr m)), j)
  behind_list dir items old (finished n st) (g, j, s, w, t) = (
    (λ e m. g e (inr m)),
    j,
    s,
    (λ d is m. elim (w d is m) [
      | inr h ↦ inr h
      | inl (inr before) ↦ inl before
      | inl (inl same) ↦
          let at_dir : d ≡ dir = cc same in
          let these : is ≡ items = cc same in inr (rw (at_dir, these) t)
    ]),
    (items, g (listed dir items) (inl refl)),
  )

  pub walk-After :
      (fuel : ℕ) (dir : String) (n : ℕ) (st : State S)
      → Known now days root st.calls dir
      → Justified now days root st.calls × (successes st.calls ≡ n)
      → After st.calls (Visited dir) (walk path sftp profiles cfg now days fuel dir n st)
  walk-After zero dir n st k b = unfold walk in tt
  walk-After (suc fuel) dir n st k (j, s) = elim (Option-cases (sftp.list cfg dir st.remote).0) [
    | inl e ↦
        rw (walk-none fuel dir n st e)
          ((λ x m. inr m), cons-Justified now days root (list_failed dir) st.calls k j)
    | inr (items, e) ↦ rw (walk-some fuel dir n st items e) (
        behind_list dir items st.calls
          (walk_items path sftp profiles cfg now days (walk path sftp profiles cfg now days fuel)
            dir items n (after_list dir items st))
          (items-After (walk path sftp profiles cfg now days fuel) (walk-After fuel) dir items n
            (after_list dir items st) (λ i m. (items, inl refl, m))
            (cons-Justified now days root (listed dir items) st.calls k j, s)))
  ]
