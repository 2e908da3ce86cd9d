-- ===== src/Web/ManagerBar.antt =====
-- web/src/components/recordings/ManagerBar.tsx with `deleteRecordings` and `pruneRecordings` of
-- web/src/lib/recordings.ts: the buttons that delete recordings. `Number` is a parameter that gives
-- whole numbers from 0 on, and so is the text of a number.
use reolink_station.Prelude.{
  ℕ, String, Bool, true, false, not, ◌||◌, ◌==◌, ltb, Option, none, some, List, [], ◌∷◌, join_text,
  if◌then◌else◌,
}
use reolink_station.Web.PtzControls.{Rejection, api_error, other_error}

pub record Bar : Type 0 where
  pub days : String
  pub msg : String
  pub error : String
  pub busy : Bool

-- What is asked of the server.
pub data Deletion : Type 0 where
  delete_recordings : List String → Deletion
  prune_recordings : ℕ → Deletion

abbrev pub mount : Bar
mount = record { days = "30"; msg = ""; error = ""; busy = false }

abbrev pub is_none_selected : List String → Bool
is_none_selected [] = true
is_none_selected (p ∷ ps) = false

-- `run`, before its `await`
abbrev pub run : Bar → Bar
run b = record b { error = ""; msg = ""; busy = true }

-- `run`, behind it
unfoldable pub run_done : (ℕ → String) → ℕ → Bar → Bar
run_done show deleted b = record b {
  msg =
      join_text "Deleted "
        (join_text (show deleted) (join_text " file" (if deleted == 1 then "" else "s")));
  busy = false;
}

unfoldable pub run_failed : Rejection → Bar → Bar
run_failed (api_error status) b = record b {
  error =
      if status == 403
      then "You need manage permission to delete recordings"
      else "Operation failed";
  busy = false;
}
run_failed other_error b = record b { error = "Operation failed"; busy = false }

-- The argument `confirmed` is what `window.confirm` answers, if it is asked.
unfoldable pub del : List String → Bool → Bar → Option Deletion × Bar
del selected confirmed b =
    if is_none_selected selected
    then (none, b)
    else (if not confirmed then (none, b) else (some (delete_recordings selected), run b))

abbrev pub wrong_days : Bar → Bar
wrong_days b = record b { error = "Days must be a whole number of at least 1" }

unfoldable pub prune : (String → Option ℕ) → Bool → Bar → Option Deletion × Bar
prune number confirmed b = elim (number b.days) [
  | none ↦ (none, wrong_days b)
  | some n ↦
      if ltb n 1
      then (none, wrong_days b)
      else (if not confirmed then (none, b) else (some (prune_recordings n), run b))
]

-- clicks on the buttons, which may be disabled
unfoldable pub click_delete : List String → Bool → Bar → Option Deletion × Bar
unfolding del
click_delete selected confirmed b =
    if b.busy || is_none_selected selected then (none, b) else del selected confirmed b

unfoldable pub click_prune : (String → Option ℕ) → Bool → Bar → Option Deletion × Bar
unfolding prune
click_prune number confirmed b = if b.busy then (none, b) else prune number confirmed b
