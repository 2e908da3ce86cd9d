-- ===== src/Web/RecordingsBrowser.antt =====
-- web/src/components/recordings/RecordingsBrowser.tsx with `listRecordings` of
-- web/src/lib/recordings.ts: the listing of a directory, its selection and the bar below it. A state is
-- one whose effects have run: React commits the component once with the changed profile or directory
-- and the entries before, and this commit is left out, with what may be clicked in it. The orders of the tiles and of the folders are
-- left out: a tile is given by its number among the files.
pub mod Reach
pub mod Loads
pub mod Inv
pub mod Selection
use reolink_station.Prelude.{
  ℕ, zero, suc, ◌+◌, String, Bool, true, false, not, Option, none, some, List, [], ◌∷◌, ◌++◌, map,
  keep_if, same_text, if◌then◌else◌,
}
use reolink_station.Prelude.Split.{is_empty}
use reolink_station.Recordings.Remote.{RecordingEntry}
use reolink_station.Web.ManagerBar
use reolink_station.Web.ManagerBar.{Bar, Deletion, click_delete, click_prune}

-- A request for a listing, with the flag `ignore` of its effect.
pub record Load : Type 0 where
  pub profile_id : String
  pub dir : String
  pub ignore : Bool

-- `loads` are the requests that have not been answered, and `asked` is a record of the deletions that
-- were sent, each with its profile.
pub record Browser : Type 0 where
  pub profile_id : String
  pub dir : String
  pub entries : Option (List RecordingEntry)
  pub error : String
  pub selected : List String
  pub opened : Option RecordingEntry
  pub reload_key : ℕ
  pub bar : Bar
  pub loads : List Load
  pub asked : List (String × Deletion)

abbrev pub ignored : Load → Load
ignored l = record l { ignore = true }

-- the cleanup of the effect before, and the effect; the bar goes with the listing
abbrev pub effect : Browser → Browser
effect b = record b {
  entries = none;
  error = "";
  selected = [];
  bar = ManagerBar.mount;
  loads = record { profile_id = b.profile_id; dir = b.dir; ignore = false } ∷ map ignored b.loads;
}

abbrev pub mount : String → Browser
mount profile_id = effect (record {
  profile_id = profile_id;
  dir = "";
  entries = none;
  error = "";
  selected = [];
  opened = none;
  reload_key = 0;
  bar = ManagerBar.mount;
  loads = [];
  asked = [];
})

unfoldable pub set_dir : String → Browser → Browser
set_dir dir b = if same_text dir b.dir then b else effect (record b { dir = dir })

unfoldable pub set_profile : String → Browser → Browser
set_profile id b = if same_text id b.profile_id then b else effect (record b { profile_id = id })

-- `onMutated`
abbrev pub mutated : Browser → Browser
mutated b = effect (record b { reload_key = b.reload_key + 1 })

-- the handlers of a request: `none` where it is rejected
unfoldable pub on_loaded : Load → Option (List RecordingEntry) → Browser → Browser
on_loaded l none b =
    if l.ignore then b else record b { error = "Could not load recordings"; entries = some [] }
on_loaded l (some res) b = if l.ignore then b else record b { entries = some res }

abbrev pub is_file : RecordingEntry → Bool
is_file e = not e.is_dir

-- `entries ?? []`
abbrev pub listed : Browser → List RecordingEntry
listed b = elim b.entries [ none ↦ [] | some es ↦ es ]

abbrev pub files : Browser → List RecordingEntry
files b = keep_if is_file (listed b)

unfoldable pub has : String → List String → Bool
has path [] = false
has path (p ∷ ps) = let rest = has path ps in if same_text p path then true else rest

-- `toggle`, on a set that keeps the order of insertion
unfoldable pub toggle : String → Browser → Browser
unfolding has
toggle path b = record b {
  selected =
      if has path b.selected
      then keep_if (λ p. not (same_text p path)) b.selected
      else b.selected ++ (path ∷ []);
}

-- `entries !== null && !error`
abbrev pub shows_bar : Browser → Bool
shows_bar b = elim b.entries [ none ↦ false | some es ↦ is_empty b.error ]

-- what a click in the bar gives
abbrev pub clicked : Option Deletion × Bar → Browser → Browser
clicked (none, bar) b = record b { bar = bar }
clicked (some d, bar) b = record b { bar = bar; asked = (b.profile_id, d) ∷ b.asked }

unfoldable pub delete_selected : Bool → Browser → Browser
unfolding click_delete
delete_selected confirmed b =
    if shows_bar b then clicked (click_delete b.selected confirmed b.bar) b else b

unfoldable pub prune_old : (String → Option ℕ) → Bool → Browser → Browser
unfolding click_prune
prune_old number confirmed b =
    if shows_bar b then clicked (click_prune number confirmed b.bar) b else b
