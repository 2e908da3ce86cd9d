-- ===== src/Tests/WebTests.antt =====
-- The client at concrete inputs.
use reolink_station.Prelude.{
  ℕ, String, List, [], ◌∷◌, true, false, some, none, ◌≡◌, In, inl, refl, keep_if,
}
use reolink_station.Prelude.Split.{is_empty}
use reolink_station.Live.Ptz.{up, left, stop}
use reolink_station.Web.PtzControls.{
  Event, pointer_down, pointer_leave, props_changed, key_down, Controls, run, cleanup, release,
  start, set_profile, on_event, on_key_down,
}
use reolink_station.Web.PtzControls
use reolink_station.Web.PtzControls.Stopped.{IsStopped, run-IsStopped}
use reolink_station.Web.Api.{FetchResponse, Effect, req, Outcome, api_error}
use reolink_station.Web.Api.Session.{Browser, apply_all, req-expelled}
use reolink_station.Recordings.Remote.{RecordingEntry}
use reolink_station.Web.ManagerBar.{Deletion, delete_recordings}
use reolink_station.Web.RecordingsBrowser
use reolink_station.Web.RecordingsBrowser.{on_loaded, toggle, has, delete_selected}
use reolink_station.Web.RecordingsBrowser.Reach.{
  Reach, mounted, step, loaded, toggled, delete_clicked,
}
use reolink_station.Web.RecordingsBrowser.Inv.{IsFileOf, Warranted}
use reolink_station.Web.RecordingsBrowser.Selection.{Reach-Warranted}

-- A button is held while the page turns to another camera.
abbrev events : List Event
events = pointer_down up ∷ pointer_leave ∷ key_down left false "Enter" ∷ props_changed "cam2" ∷ []

commands :
    (cleanup (run events (PtzControls.mount "cam1"))).sent
    ≡ ("cam2", stop) ∷ ("cam1", stop) ∷ ("cam1", left) ∷ ("cam1", stop) ∷ ("cam1", up) ∷ []
unfolding run cleanup on_event start release set_profile on_key_down
commands = refl

run-IsStopped_example :
    ((id : String) → IsStopped id (cleanup (run events (PtzControls.mount "cam1"))).sent)
    × IsStopped
        (run events (PtzControls.mount "cam1")).profile_id
        (release (run events (PtzControls.mount "cam1"))).sent
run-IsStopped_example = run-IsStopped "cam1" events

abbrev denied : FetchResponse
denied = record { status = 401; body = some "" }

abbrev sent : Outcome ℕ × List Effect
sent = req (λ t. none) true "GET" "/camera-profiles" none (some denied)

abbrev signed_in : Browser
signed_in = record { has_token = true; page = "/" }

req-expelled_example :
    (sent.0 ≡ api_error (record { status = 401; message = some "" }))
    × (apply_all true sent.1 signed_in ≡ record { has_token = false; page = "/login" })
    × (apply_all false sent.1 (record signed_in { has_token = true })
        ≡ record { has_token = true; page = "/" })
req-expelled_example =
    req-expelled (λ t. none) "GET" "/camera-profiles" none denied refl refl signed_in

-- a directory with one file
abbrev clip : RecordingEntry
clip = record { name = "a.mp4"; path = "a.mp4"; is_dir = false; size = 10; mtime = 5 }

abbrev Answers : String → String → List RecordingEntry → Type 0
Answers id dir res = res ≡ clip ∷ []

abbrev begun : RecordingsBrowser.Browser
begun = RecordingsBrowser.mount "cam1"

abbrev listing : RecordingsBrowser.Browser
listing =
    on_loaded (record { profile_id = "cam1"; dir = ""; ignore = false }) (some (clip ∷ []))
      (record begun { loads = [] })

abbrev chosen : RecordingsBrowser.Browser
chosen = toggle "a.mp4" listing

abbrev finished : RecordingsBrowser.Browser
finished = delete_selected true chosen

finished-Reach : Reach Answers "cam1" finished
unfolding on_loaded keep_if
finished-Reach =
    step (step (step mounted (loaded [] _ [] (clip ∷ []) refl refl)) (toggled clip (inl refl)))
      (delete_clicked true)

deleted : finished.asked ≡ ("cam1", delete_recordings ("a.mp4" ∷ [])) ∷ []
unfolding on_loaded toggle has delete_selected is_empty
deleted = refl

Reach-Warranted_example :
    ((es : List RecordingEntry)
      → finished.entries ≡ some es
      → is_empty finished.error ≡ true
      → Answers finished.profile_id finished.dir es)
    × ((path : String)
        → In path finished.selected
        → (es : List RecordingEntry) × (finished.entries ≡ some es) × IsFileOf es path)
    × ((d : String × Deletion) → In d finished.asked → Warranted Answers d)
Reach-Warranted_example = Reach-Warranted Answers "cam1" finished finished-Reach
