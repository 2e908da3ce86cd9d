-- ===== src/Web/RecordingsBrowser/Inv.antt =====
-- The invariant of the browser of recordings, and what keeps it.
use reolink_station.Prelude.{
  ◌≤◌, String, true, false, not, none, some, List, [], ◌∷◌, ◌++◌, In, ◌≡◌, inl, inr, refl, sym, ap,
  subst, same_text, Bool-cases, Option-cases, of_In-append, of_In-keep_if, In-append_left,
  In-append_right,
}
use reolink_station.Prelude.Split.{is_empty}
use reolink_station.Recordings.Remote.{RecordingEntry}
use reolink_station.Web.ManagerBar.{
  Bar, Deletion, delete_recordings, prune_recordings, is_none_selected,
}
use reolink_station.Web.RecordingsBrowser.{
  Load, Browser, effect, set_dir, set_profile, on_loaded, is_file, listed, files, has, toggle,
}
use reolink_station.Web.RecordingsBrowser.Loads.{
  Ignored, OneLive, without-OneLive, others-Ignored, map-Ignored,
}

-- A file of a listing.
abbrev pub IsFileOf : List RecordingEntry → String → Type 0
IsFileOf es path = (f : RecordingEntry) × In f es × (f.is_dir ≡ false) × (f.path ≡ path)

module _ (Answers : String → String → List RecordingEntry → Type 0) where
  -- What may be asked of the server: files of one of its listings of the profile, and at least a day.
  abbrev pub Warranted : String × Deletion → Type 0
  Warranted (id, delete_recordings paths) =
      (is_none_selected paths ≡ false)
      × ((dir : String) × (es : List RecordingEntry) × Answers id dir es
          × ((path : String) → In path paths → IsFileOf es path))
  Warranted (id, prune_recordings n) = 1 ≤ n

  pub record Inv (b : Browser) : Type 0 where
    pub one : OneLive b.loads
    pub current :
        (l : Load)
        → In l b.loads
        → l.ignore ≡ false
        → (l.profile_id ≡ b.profile_id) × (l.dir ≡ b.dir)
    pub shown :
        (es : List RecordingEntry)
        → b.entries ≡ some es
        → is_empty b.error ≡ true
        → Answers b.profile_id b.dir es
    pub settled : (es : List RecordingEntry) → b.entries ≡ some es → Ignored b.loads
    pub chosen :
        (path : String)
        → In path b.selected
        → (es : List RecordingEntry) × (b.entries ≡ some es) × IsFileOf es path
    pub warranted : (d : String × Deletion) → In d b.asked → Warranted d

  pub effect-Inv :
      (b : Browser) → ((d : String × Deletion) → In d b.asked → Warranted d) → Inv (effect b)
  effect-Inv b h = record {
    one = inr (map-Ignored b.loads);
    current = λ l m live. elim m [
      | inl e ↦ (ap (λ (x : Load). x.profile_id) e, ap (λ (x : Load). x.dir) e)
      | inr n ↦ cc (map-Ignored b.loads l n, live)
    ];
    shown = λ es e h. cc e;
    settled = λ es e. cc e;
    chosen = λ path m. elim m [ ];
    warranted = h;
  }

  -- a request is answered
  module _ (b : Browser) (before : List Load) (l : Load) (after : List Load)
      (e : b.loads ≡ before ++ l ∷ after) (inv : Inv b) where
    pub held : In l b.loads
    held = subst (In l) (sym e) (In-append_right l before (l ∷ after) (inl refl))

    pub still : (x : Load) → In x (before ++ after) → In x b.loads
    still x m = subst (In x) (sym e) (elim (of_In-append x before after m) [
      | inl h ↦ In-append_left x before (l ∷ after) h
      | inr h ↦ In-append_right x before (l ∷ after) (inr h)
    ])

    pub one_left : OneLive (before ++ after)
    one_left = without-OneLive before l after (subst OneLive e inv.one)

    pub answered-Inv : Inv (record b { loads = before ++ after })
    answered-Inv = record {
      one = one_left;
      current = λ x m. inv.current x (still x m);
      shown = inv.shown;
      settled = λ es f x m. inv.settled es f x (still x m);
      chosen = inv.chosen;
      warranted = inv.warranted;
    }

    -- by the effect that ran last
    pub live-Inv :
        (entries : List RecordingEntry) (error : String)
        → l.ignore ≡ false
        → (is_empty error ≡ true → Answers b.profile_id b.dir entries)
        → Inv (record b { loads = before ++ after; entries = some entries; error = error })
    live-Inv entries error live h =
        let rest = others-Ignored before l after (subst OneLive e inv.one) live in
        record {
          one = one_left;
          current = λ x m alive. cc (rest x m, alive);
          shown = λ es f empty. subst (Answers b.profile_id b.dir) (cc f) (h empty);
          settled = λ es f. rest;
          chosen =
              λ path m. let (es, f, file) = inv.chosen path m in cc (inv.settled es f l held, live);
          warranted = inv.warranted;
        }

    pub loaded-Inv :
        (res : List RecordingEntry)
        → Answers l.profile_id l.dir res
        → Inv (on_loaded l (some res) (record b { loads = before ++ after }))
    unfolding on_loaded
    loaded-Inv res a = elim (Bool-cases l.ignore) [
      | inl i ↦ rw i answered-Inv
      | inr i ↦
          let (same_id, same_dir) = inv.current l held i in
          rw i (
            live-Inv res b.error i (λ h.
              subst (λ d. Answers b.profile_id d res) same_dir
                (subst (λ id. Answers id l.dir res) same_id a)))
    ]

    pub failed-Inv : Inv (on_loaded l none (record b { loads = before ++ after }))
    unfolding on_loaded is_empty
    failed-Inv = elim (Bool-cases l.ignore) [
      | inl i ↦ rw i answered-Inv
      | inr i ↦ rw i (live-Inv [] "Could not load recordings" i (λ h. cc h))
    ]

  pub set_dir-Inv : (dir : String) (b : Browser) → Inv b → Inv (set_dir dir b)
  unfolding set_dir
  set_dir-Inv dir b inv = elim (Bool-cases (same_text dir b.dir)) [
    | inl e ↦ rw e inv
    | inr e ↦ rw e (effect-Inv (record b { dir = dir }) inv.warranted)
  ]

  pub set_profile-Inv : (id : String) (b : Browser) → Inv b → Inv (set_profile id b)
  unfolding set_profile
  set_profile-Inv id b inv = elim (Bool-cases (same_text id b.profile_id)) [
    | inl e ↦ rw e inv
    | inr e ↦ rw e (effect-Inv (record b { profile_id = id }) inv.warranted)
  ]

  -- a selection of files that are shown
  pub select-Inv :
      (b : Browser) (selected : List String)
      → ((path : String)
          → In path selected
          → (es : List RecordingEntry) × (b.entries ≡ some es) × IsFileOf es path)
      → Inv b
      → Inv (record b { selected = selected })
  select-Inv b selected h inv = record {
    one = inv.one;
    current = inv.current;
    shown = inv.shown;
    settled = inv.settled;
    chosen = h;
    warranted = inv.warranted;
  }

  pub file_shown :
      (b : Browser) (f : RecordingEntry)
      → In f (files b)
      → (es : List RecordingEntry) × (b.entries ≡ some es) × IsFileOf es f.path
  file_shown b f m =
      let (n, file) = of_In-keep_if is_file f (listed b) m in
      elim (Option-cases b.entries) [
        | inl e ↦ elim (rw e at n) [ ]
        | inr (es, e) ↦ (
          es,
          e,
          (
            f,
            rw e at n,
            elim (Bool-cases f.is_dir) [ inr d ↦ d | inl d ↦ cc (rw d at file) ],
            refl,
          ),
        )
      ]

  pub toggle-Inv :
      (f : RecordingEntry) (b : Browser) → In f (files b) → Inv b → Inv (toggle f.path b)
  unfolding toggle
  toggle-Inv f b m inv =
      select-Inv b _
        (elim (Bool-cases (has f.path b.selected)) [
          | inl h ↦ rw h (λ path n.
              inv.chosen path (of_In-keep_if (λ p. not (same_text p f.path)) path b.selected n).0)
          | inr h ↦ rw h (λ path n. elim (of_In-append path b.selected (f.path ∷ []) n) [
            | inl old ↦ inv.chosen path old
            | inr (inl e) ↦
                let (es, shown, file) = file_shown b f m in
                (es, shown, subst (IsFileOf es) (sym e) file)
            | inr (inr none_else) ↦ elim none_else [ ]
          ])
        ])
        inv

  -- the bar, and what was asked
  pub asked-Inv :
      (b : Browser) (bar : Bar) (asked : List (String × Deletion))
      → ((d : String × Deletion) → In d asked → Warranted d)
      → Inv b
      → Inv (record b { bar = bar; asked = asked })
  asked-Inv b bar asked h inv = record {
    one = inv.one;
    current = inv.current;
    shown = inv.shown;
    settled = inv.settled;
    chosen = inv.chosen;
    warranted = h;
  }
