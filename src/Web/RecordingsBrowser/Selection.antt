-- ===== src/Web/RecordingsBrowser/Selection.antt =====
-- What is shown belongs to the directory that was asked for last, and what is deleted was shown.
use reolink_station.Prelude.{
  ℕ, ◌+◌, ◌≤◌, ltb, String, Bool, true, false, Option, none, some, List, [], ◌∷◌, In, ◌≡◌, inl, inr,
  refl, sym, subst, Bool-cases, Option-cases, arith,
}
use reolink_station.Prelude.Split.{is_empty}
use reolink_station.Recordings.Remote.{RecordingEntry}
use reolink_station.Web.ManagerBar.{
  Bar, Deletion, delete_recordings, prune_recordings, click_delete, click_prune, del, prune,
  is_none_selected,
}
use reolink_station.Web.RecordingsBrowser.{
  Browser, mount, shows_bar, clicked, delete_selected, prune_old,
}
use reolink_station.Web.RecordingsBrowser.Reach.{
  Step, went, props_changed, loaded, load_failed, toggled, played, days_typed, delete_clicked,
  prune_clicked, deletion_done, deletion_failed, Reach, mounted, step,
}
use reolink_station.Web.RecordingsBrowser.Inv.{
  IsFileOf, Warranted, Inv, effect-Inv, loaded-Inv, failed-Inv, set_dir-Inv, set_profile-Inv,
  toggle-Inv, asked-Inv,
}

module _ (Answers : String → String → List RecordingEntry → Type 0) where
  clicked-Inv :
      (b : Browser) (click : Option Deletion × Bar)
      → ((d : Deletion) → click.0 ≡ some d → Warranted Answers (b.profile_id, d))
      → Inv Answers b
      → Inv Answers (clicked click b)
  clicked-Inv b (none, bar) h inv = asked-Inv Answers b bar b.asked inv.warranted inv
  clicked-Inv b (some d, bar) h inv =
      asked-Inv Answers b bar ((b.profile_id, d) ∷ b.asked)
        (λ x m. elim m [
          | inl e ↦ subst (Warranted Answers) (sym e) (h d refl)
          | inr n ↦ inv.warranted x n
        ])
        inv

  -- only a selection that is not empty is deleted
  click_delete-some :
      (selected : List String) (confirmed : Bool) (bar : Bar) (d : Deletion)
      → (click_delete selected confirmed bar).0 ≡ some d
      → (is_none_selected selected ≡ false) × (d ≡ delete_recordings selected)
  unfolding click_delete del
  click_delete-some selected confirmed bar d e = ground arith

  click_prune-some :
      (number : String → Option ℕ) (confirmed : Bool) (bar : Bar) (d : Deletion)
      → (click_prune number confirmed bar).0 ≡ some d
      → (n : ℕ) × (1 ≤ n) × (d ≡ prune_recordings n)
  unfolding click_prune prune
  click_prune-some number confirmed bar d e = elim (Bool-cases bar.busy) [
    | inl busy ↦ cc (rw busy at e)
    | inr idle ↦ elim (Option-cases (number bar.days)) [
      | inl missing ↦ cc (rw (idle, missing, prune) at e)
      | inr (n, found) ↦ elim (Bool-cases (ltb n 1)) [
        | inl small ↦ cc (rw (idle, found, small, prune) at e)
        | inr enough ↦ elim (Bool-cases confirmed) [
          | inr refused ↦ cc (rw (idle, found, enough, refused, prune) at e)
          | inl agreed ↦
              let same : some (prune_recordings n) ≡ some d =
                rw (idle, found, enough, agreed, prune) at e in
              (n, ground arith, cc same)
        ]
      ]
    ]
  ]

  bar_shown :
      (b : Browser)
      → shows_bar b ≡ true
      → (es : List RecordingEntry) × (b.entries ≡ some es) × (is_empty b.error ≡ true)
  bar_shown b h = elim (Option-cases b.entries) [
    | inl e ↦ cc (rw e at h)
    | inr (es, e) ↦ (es, e, rw e at h)
  ]

  -- the selection is of files of the listing that is shown
  selection-Warranted :
      (b : Browser)
      → Inv Answers b
      → shows_bar b ≡ true
      → is_none_selected b.selected ≡ false
      → Warranted Answers (b.profile_id, delete_recordings b.selected)
  selection-Warranted b inv h some_selected =
      let (es, e, empty) = bar_shown b h in
      (
        some_selected,
        (
          b.dir,
          es,
          inv.shown es e empty,
          λ path m.
              let (fs, f, file) = inv.chosen path m in
              let same : fs ≡ es = cc (f, e) in subst (λ x. IsFileOf x path) same file,
        ),
      )

  delete_selected-Inv :
      (confirmed : Bool) (b : Browser) → Inv Answers b → Inv Answers (delete_selected confirmed b)
  unfolding delete_selected
  delete_selected-Inv confirmed b inv = elim (Bool-cases (shows_bar b)) [
    | inr e ↦ rw e inv
    | inl e ↦ rw e (
        clicked-Inv b (click_delete b.selected confirmed b.bar)
          (λ d f.
            let (some_selected, same) = click_delete-some b.selected confirmed b.bar d f in
            subst (λ x. Warranted Answers (b.profile_id, x)) (sym same)
              (selection-Warranted b inv e some_selected))
          inv)
  ]

  prune_old-Inv :
      (number : String → Option ℕ) (confirmed : Bool) (b : Browser)
      → Inv Answers b
      → Inv Answers (prune_old number confirmed b)
  unfolding prune_old
  prune_old-Inv number confirmed b inv = elim (Bool-cases (shows_bar b)) [
    | inr e ↦ rw e inv
    | inl e ↦ rw e (
        clicked-Inv b (click_prune number confirmed b.bar)
          (λ d f.
            let (n, le, same) = click_prune-some number confirmed b.bar d f in
            subst (λ x. Warranted Answers (b.profile_id, x)) (sym same) le)
          inv)
  ]

  Step-Inv : (b c : Browser) → Inv Answers b → Step Answers b c → Inv Answers c
  Step-Inv b c inv (went dir) = set_dir-Inv Answers dir b inv
  Step-Inv b c inv (props_changed id) = set_profile-Inv Answers id b inv
  Step-Inv b c inv (loaded before l after res e a) = loaded-Inv Answers b before l after e inv res a
  Step-Inv b c inv (load_failed before l after e) = failed-Inv Answers b before l after e inv
  Step-Inv b c inv (toggled f m) = toggle-Inv Answers f b m inv
  Step-Inv b c inv (played o) = record {
    one = inv.one;
    current = inv.current;
    shown = inv.shown;
    settled = inv.settled;
    chosen = inv.chosen;
    warranted = inv.warranted;
  }
  Step-Inv b c inv (days_typed days) = asked-Inv Answers b _ b.asked inv.warranted inv
  Step-Inv b c inv (delete_clicked confirmed) = delete_selected-Inv confirmed b inv
  Step-Inv b c inv (prune_clicked number confirmed) = prune_old-Inv number confirmed b inv
  Step-Inv b c inv (deletion_done show deleted) =
      effect-Inv Answers (record b { reload_key = b.reload_key + 1 }) inv.warranted
  Step-Inv b c inv (deletion_failed r) = asked-Inv Answers b _ b.asked inv.warranted inv

  Reach-Inv : (profile_id : String) (b : Browser) → Reach Answers profile_id b → Inv Answers b
  Reach-Inv profile_id b mounted =
      effect-Inv Answers (record (mount profile_id) { loads = [] }) (λ d m. elim m [ ])
  Reach-Inv profile_id b (step {b = a} r s) = Step-Inv a b (Reach-Inv profile_id a r) s

  -- In every state that a browser comes to, once its effects have run: a listing that is shown without an error is an answer for
  -- the profile and the directory that are shown, whatever the order of the answers; what is selected
  -- are files of that listing; and every deletion that was sent names at least one path and only files of
  -- an answer for its profile, or is of files older than at least a day.
  pub Reach-Warranted :
      (profile_id : String) (b : Browser)
      → Reach Answers profile_id b
      → ((es : List RecordingEntry)
          → b.entries ≡ some es
          → is_empty b.error ≡ true
          → Answers b.profile_id b.dir es)
        × ((path : String)
            → In path b.selected
            → (es : List RecordingEntry) × (b.entries ≡ some es) × IsFileOf es path)
        × ((d : String × Deletion) → In d b.asked → Warranted Answers d)
  Reach-Warranted profile_id b r =
      let inv = Reach-Inv profile_id b r in (inv.shown, inv.chosen, inv.warranted)
