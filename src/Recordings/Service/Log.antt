-- ===== src/Recordings/Service/Log.antt =====
-- What the record of the calls to the server says of a walk from a root.
use reolink_station.Prelude.{
  ℕ, ◌+◌, String, Bool, true, false, List, [], ◌∷◌, ◌≡◌, ◌⊎◌, inl, inr, In, subst, sym,
}
use reolink_station.Recordings.Remote.{
  FileInfo, SftpCall, listed, list_failed, deleted, below, is_old,
}

abbrev pub Grows : List SftpCall → List SftpCall → Type 0
Grows log log' = (e : SftpCall) → In e log → In e log'

-- the number of files that were deleted
abbrev pub successes : List SftpCall → ℕ
successes [] = 0
successes (listed d items ∷ log) = successes log
successes (list_failed d ∷ log) = successes log
successes (deleted p true ∷ log) = successes log + 1
successes (deleted p false ∷ log) = successes log

-- An item of a directory that was listed.
abbrev pub Item : List SftpCall → String → FileInfo → Type 0
Item log dir i = (items : List FileInfo) × In (listed dir items) log × In i items

pub Item-Grows :
    (log log' : List SftpCall) (dir : String) (i : FileInfo)
    → Grows log log'
    → Item log dir i
    → Item log' dir i
Item-Grows log log' dir i g (items, m, n) = (items, g (listed dir items) m, n)

module _ (now days : ℕ) (root : String) where
  -- The root, or a directory that is an item of one that was listed.
  abbrev pub Known : List SftpCall → String → Type 0
  Known log d =
      (d ≡ root)
      ⊎ ((dir : String) × (i : FileInfo) × Item log dir i
          × (i.is_dir ≡ true)
          × (d ≡ below dir i.name))

  -- An old file that is an item of a directory that was listed.
  abbrev pub OldFile : List SftpCall → String → Type 0
  OldFile log p =
      (dir : String) × (i : FileInfo) × Item log dir i
      × (i.is_dir ≡ false)
      × (is_old now days i ≡ true)
      × (p ≡ below dir i.name)

  abbrev pub Cause : List SftpCall → SftpCall → Type 0
  Cause log (listed d items) = Known log d
  Cause log (list_failed d) = Known log d
  Cause log (deleted p done) = OldFile log p

  -- Only known directories were to be listed, and only old files were to be deleted.
  abbrev pub Justified : List SftpCall → Type 0
  Justified log = (e : SftpCall) → In e log → Cause log e

  -- What a complete walk has done with an item.
  abbrev pub Handled : List SftpCall → String → FileInfo → Type 0
  Handled log dir i =
      (i.is_dir ≡ true → (items : List FileInfo) × In (listed (below dir i.name) items) log)
      × (i.is_dir ≡ false
          → is_old now days i ≡ true
          → (done : Bool) × In (deleted (below dir i.name) done) log)

  abbrev pub Whole : List SftpCall → String → List FileInfo → Type 0
  Whole log dir items = (i : FileInfo) → In i items → Handled log dir i

  -- What was listed since has been handled.
  abbrev pub NewWhole : List SftpCall → List SftpCall → Type 0
  NewWhole before log =
      (d : String) (items : List FileInfo)
      → In (listed d items) log
      → In (listed d items) before ⊎ Whole log d items

  pub Known-Grows :
      (log log' : List SftpCall) (d : String) → Grows log log' → Known log d → Known log' d
  Known-Grows log log' d g (inl e) = inl e
  Known-Grows log log' d g (inr (dir, i, m, k, e)) =
      inr (dir, i, Item-Grows log log' dir i g m, k, e)

  pub Handled-Grows :
      (log log' : List SftpCall) (dir : String) (i : FileInfo)
      → Grows log log'
      → Handled log dir i
      → Handled log' dir i
  Handled-Grows log log' dir i g (a, b) = (
    λ d. let (items, m) = a d in (items, g (listed (below dir i.name) items) m),
    λ d o. let (done, m) = b d o in (done, g (deleted (below dir i.name) done) m),
  )

  Cause-Grows :
      (log log' : List SftpCall) (e : SftpCall) → Grows log log' → Cause log e → Cause log' e
  Cause-Grows log log' (listed d items) g h = Known-Grows log log' d g h
  Cause-Grows log log' (list_failed d) g h = Known-Grows log log' d g h
  Cause-Grows log log' (deleted p done) g (dir, i, m, k, o, e) =
      (dir, i, Item-Grows log log' dir i g m, k, o, e)

  -- One more call that is justified.
  pub cons-Justified :
      (e : SftpCall) (log : List SftpCall) → Cause log e → Justified log → Justified (e ∷ log)
  cons-Justified e log c j x (inl same) =
      subst (Cause (e ∷ log)) (sym same) (Cause-Grows log (e ∷ log) e (λ y m. inr m) c)
  cons-Justified e log c j x (inr m) = Cause-Grows log (e ∷ log) x (λ y n. inr n) (j x m)

  pub NewWhole-trans :
      (a b c : List SftpCall) → Grows b c → NewWhole a b → NewWhole b c → NewWhole a c
  NewWhole-trans a b c g h k d items m = elim (k d items m) [
    | inr w ↦ inr w
    | inl old ↦ elim (h d items old) [
      | inl older ↦ inl older
      | inr w ↦ inr (λ i n. Handled-Grows b c d i g (w i n))
    ]
  ]
