-- ===== src/Live/Ptz.antt =====
-- src/live/ptz.ts: what is sent to the broker for a command.
use reolink_station.Prelude.{
  ℕ, String, Bool, true, false, Option, some, none, join_text, if◌then◌else◌,
}

pub data PtzCommand : Type 0 where
  up down left right zoom_in zoom_out stop : PtzCommand

-- the command's text; the constructors `zoom_in` and `zoom_out` are 'in' and 'out'
unfoldable pub command_text : PtzCommand → String
command_text up = "up"
command_text down = "down"
command_text left = "left"
command_text right = "right"
command_text zoom_in = "in"
command_text zoom_out = "out"
command_text stop = "stop"

unfoldable pub build_ptz_topic : String → String
build_ptz_topic profile_id = join_text "neolink/" (join_text profile_id "/control/ptz")

-- the default of the parameter `amount`
abbrev pub amount_of : Option ℕ → ℕ
amount_of none = 32
amount_of (some n) = n

abbrev pub is_stop : PtzCommand → Bool
is_stop up = false
is_stop down = false
is_stop left = false
is_stop right = false
is_stop zoom_in = false
is_stop zoom_out = false
is_stop stop = true

-- `number` is how JavaScript writes a number in a template
unfoldable pub build_ptz_payload : (ℕ → String) → PtzCommand → Option ℕ → String
unfolding command_text
build_ptz_payload number command amount =
    if is_stop command
    then "stop"
    else join_text (command_text command) (join_text " " (number (amount_of amount)))
