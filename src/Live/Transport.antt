-- ===== src/Live/Transport.antt =====
-- src/live/mqtt-ptz.transport.ts: one call of `MqttPtzTransport.send`. Its promises, its timer and its
-- listener are a state, and what the broker and the clock do are steps. The promises that follow
-- from one of these events settle before the next one, as JavaScript's microtasks do.
pub mod Settled
use reolink_station.Prelude.{
  ℕ, String, Bool, true, false, Option, none, some, List, [], ◌∷◌, ◌++◌, ◌≡◌, if◌then◌else◌,
}
use reolink_station.Live.Ptz.{PtzCommand, build_ptz_topic, build_ptz_payload}

-- A message: its topic and its payload.
abbrev pub Message : Type 0
Message = String × String

abbrev pub message : (ℕ → String) → String → PtzCommand → Option ℕ → Message
message number profile_id command amount =
    (build_ptz_topic profile_id, build_ptz_payload number command amount)

pub data Outcome : Type 0 where
  -- `send` returned, or threw the ServiceUnavailableException
  resolved unavailable : Outcome

pub record Send : Type 0 where
  -- the listener of 'connect' is on the client
  pub listening : Bool
  -- the callback of `publish` is awaited
  pub publishing : Bool
  -- the timer runs
  pub timer : Bool
  -- what the client was given to publish
  pub published : List Message
  pub outcome : Option Outcome

-- `Promise.race`, of which only the first answer counts, and the `finally` behind it
unfoldable pub settle : Outcome → Send → Send
settle o s = elim s.outcome [
  | some earlier ↦ s
  | none ↦ record s { outcome = some o; timer = false; listening = false }
]

unfoldable pub publish : Message → Send → Send
publish msg s = record s { publishing = true; published = msg ∷ s.published }

-- the body of `send` up to the race
unfoldable pub send : Message → Bool → Send
unfolding publish
send msg connected =
    let s : Send = record {
      listening = false;
      publishing = false;
      timer = true;
      published = [];
      outcome = none;
    } in
    if connected then publish msg s else record s { listening = true }

-- `onConnect`, which `once` takes off the client
unfoldable pub on_connect : Message → Send → Send
unfolding publish
on_connect msg s = publish msg (record s { listening = false })

-- the callback of `publish`; its argument says whether there was an error
unfoldable pub on_published : Bool → Send → Send
unfolding settle
on_published failed s =
    let t = record s { publishing = false } in
    if failed then settle unavailable t else settle resolved t

unfoldable pub on_timeout : Send → Send
unfolding settle
on_timeout s = settle unavailable (record s { timer = false })

-- An event reaches the call while it waits for it.
pub data Step (msg : Message) : Send → Send → Type 0 where
  connects : {s : Send} → s.listening ≡ true → Step msg s (on_connect msg s)
  answers : {s : Send} → (failed : Bool) → s.publishing ≡ true → Step msg s (on_published failed s)
  expires : {s : Send} → s.timer ≡ true → Step msg s (on_timeout s)

pub data Reach (msg : Message) : Send → Type 0 where
  called : (connected : Bool) → Reach msg (send msg connected)
  next : {s u : Send} → Reach msg s → Step msg s u → Reach msg u
