-- ===== src/Web/RecordingsBrowser/Reach.antt =====
-- What happens to a browser of recordings: its steps, and the states that it comes to.
use reolink_station.Prelude.{ℕ, String, Bool, Option, none, some, List, ◌∷◌, ◌++◌, In, ◌≡◌}
use reolink_station.Recordings.Remote.{RecordingEntry}
use reolink_station.Web.PtzControls.{Rejection}
use reolink_station.Web.ManagerBar.{run_done, run_failed}
use reolink_station.Web.RecordingsBrowser.{
  Load, Browser, mount, set_dir, set_profile, mutated, on_loaded, files, toggle, delete_selected,
  prune_old,
}

-- `Answers id dir res` says that the server may answer the request of a directory so.
module _ (Answers : String → String → List RecordingEntry → Type 0) where
  pub data Step : Browser → Browser → Type 0 where
    went : {b : Browser} (dir : String) → Step b (set_dir dir b)
    props_changed : {b : Browser} (id : String) → Step b (set_profile id b)
    loaded :
        {b : Browser} (before : List Load) (l : Load) (after : List Load)
        (res : List RecordingEntry)
        → b.loads ≡ before ++ l ∷ after
        → Answers l.profile_id l.dir res
        → Step b (on_loaded l (some res) (record b { loads = before ++ after }))
    load_failed :
        {b : Browser} (before : List Load) (l : Load) (after : List Load)
        → b.loads ≡ before ++ l ∷ after
        → Step b (on_loaded l none (record b { loads = before ++ after }))
    -- the tile of a file that is shown
    toggled : {b : Browser} (f : RecordingEntry) → In f (files b) → Step b (toggle f.path b)
    played : {b : Browser} (o : Option RecordingEntry) → Step b (record b { opened = o })
    days_typed :
        {b : Browser} (days : String) → Step b (record b { bar = record b.bar { days = days } })
    delete_clicked : {b : Browser} (confirmed : Bool) → Step b (delete_selected confirmed b)
    prune_clicked :
        {b : Browser} (number : String → Option ℕ) (confirmed : Bool)
        → Step b (prune_old number confirmed b)
    deletion_done :
        {b : Browser} (show : ℕ → String) (deleted : ℕ)
        → Step b (mutated (record b { bar = run_done show deleted b.bar }))
    deletion_failed : {b : Browser} (r : Rejection) → Step b (record b { bar = run_failed r b.bar })

  pub data Reach (profile_id : String) : Browser → Type 0 where
    mounted : Reach profile_id (mount profile_id)
    step : {b c : Browser} → Reach profile_id b → Step b c → Reach profile_id c
