-- ===== src/Web/PtzControls.antt =====
-- web/src/components/live/PtzControls.tsx with `sendPtz` of web/src/lib/live.ts: the buttons that move
-- a camera. `sent` is a record of the commands that were sent, the last first, each with the profile
-- that it was sent to. The attributes of the elements are left out.
pub mod Stopped
use reolink_station.Prelude.{
  ℕ, String, Bool, true, false, not, ◌&&◌, ◌||◌, ◌==◌, Option, none, some, List, [], ◌∷◌, same_text,
  if◌then◌else◌,
}
use reolink_station.Live.Ptz.{PtzCommand, up, down, left, right, zoom_in, zoom_out, stop}

-- What a call of `api.post` is rejected with.
pub data Rejection : Type 0 where
  api_error : ℕ → Rejection
  other_error : Rejection

pub record Controls : Type 0 where
  pub profile_id : String
  pub error : String
  pub moving : Bool
  pub sent : List (String × PtzCommand)

-- `MOVES`
abbrev pub moves : List (PtzCommand × String)
moves =
    (up, "Up")
    ∷ (down, "Down")
    ∷ (left, "Left")
    ∷ (right, "Right")
    ∷ (zoom_in, "Zoom in")
    ∷ (zoom_out, "Zoom out")
    ∷ []

abbrev pub mount : String → Controls
mount profile_id = record { profile_id = profile_id; error = ""; moving = false; sent = [] }

abbrev pub send_ptz : PtzCommand → Controls → Controls
send_ptz command c = record c { sent = (c.profile_id, command) ∷ c.sent }

unfoldable pub report : Rejection → Controls → Controls
report (api_error status) c =
    if status == 403
    then record c { error = "You need manage permission to control this camera" }
    else record c { error = "Command failed" }
report other_error c = record c { error = "Command failed" }

unfoldable pub start : PtzCommand → Controls → Controls
start command c = send_ptz command (record c { error = ""; moving = true })

unfoldable pub release : Controls → Controls
release c = if not c.moving then c else send_ptz stop (record c { moving = false })

unfoldable pub hard_stop : Controls → Controls
hard_stop c = send_ptz stop (record c { error = ""; moving = false })

-- the cleanup of the effect, when the component goes and when it gets another profile
unfoldable pub cleanup : Controls → Controls
cleanup c = if c.moving then send_ptz stop c else c

unfoldable pub set_profile : String → Controls → Controls
unfolding cleanup
set_profile id c = if same_text id c.profile_id then c else record (cleanup c) { profile_id = id }

abbrev pub is_button_key : String → Bool
is_button_key key = same_text key "Enter" || same_text key " "

unfoldable pub on_key_down : PtzCommand → Bool → String → Controls → Controls
unfolding start
on_key_down command repeat key c = if not repeat && is_button_key key then start command c else c

unfoldable pub on_key_up : String → Controls → Controls
unfolding release
on_key_up key c = if is_button_key key then release c else c

-- What happens to the component while it is there.
pub data Event : Type 0 where
  pointer_down : PtzCommand → Event
  pointer_up pointer_leave pointer_cancel : Event
  key_down : PtzCommand → Bool → String → Event
  key_up : String → Event
  stop_click : Event
  rejected : Rejection → Event
  props_changed : String → Event

unfoldable pub on_event : Event → Controls → Controls
unfolding start release hard_stop report set_profile on_key_down on_key_up
on_event (pointer_down command) c = start command c
on_event pointer_up c = release c
on_event pointer_leave c = release c
on_event pointer_cancel c = release c
on_event (key_down command repeat key) c = on_key_down command repeat key c
on_event (key_up key) c = on_key_up key c
on_event stop_click c = hard_stop c
on_event (rejected r) c = report r c
on_event (props_changed id) c = set_profile id c

unfoldable pub run : List Event → Controls → Controls
unfolding on_event
run [] c = c
run (e ∷ es) c = run es (on_event e c)
