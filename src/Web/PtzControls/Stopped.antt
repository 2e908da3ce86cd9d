-- ===== src/Web/PtzControls/Stopped.antt =====
-- The controls leave no camera moving.
use reolink_station.Prelude.{
  String, Bool, false, not, Option, none, some, List, [], ◌∷◌, ◌≡◌, ◌⊎◌, inl, inr, refl, same_text,
  sym, subst, ◌==◌, ◌&&◌, if◌then◌else◌, eq_iff, eq_refl, Bool-cases, if_true, if_false,
}
use reolink_station.Live.Ptz.{PtzCommand, stop}
use reolink_station.Web.PtzControls.{
  Controls, Event, pointer_down, pointer_up, pointer_leave, pointer_cancel, key_down, key_up,
  stop_click, rejected, props_changed, api_error, other_error, Rejection, mount, report, start,
  release, hard_stop, cleanup, set_profile, on_key_down, on_key_up, is_button_key, on_event, run,
}

-- the last command sent to a profile
unfoldable pub last_to : String → List (String × PtzCommand) → Option PtzCommand
last_to id [] = none
last_to id ((i, command) ∷ sent) =
    let earlier = last_to id sent in if same_text id i then some command else earlier

-- No command was sent to the camera of the profile, or the last one was to stop.
abbrev pub IsStopped : String → List (String × PtzCommand) → Type 0
IsStopped id sent = (last_to id sent ≡ none) ⊎ (last_to id sent ≡ some stop)

-- The camera of every other profile is stopped, and the one of this profile unless it is moving.
record Inv (c : Controls) : Type 0 where
  others : (id : String) → same_text id c.profile_id ≡ false → IsStopped id c.sent
  at_rest : c.moving ≡ false → IsStopped c.profile_id c.sent

last-here :
    (id : String) (command : PtzCommand) (sent : List (String × PtzCommand))
    → last_to id ((id, command) ∷ sent) ≡ some command
unfolding last_to
last-here id command sent = if_true _ _ _ (eq_refl id)

last-elsewhere :
    (id i : String) (command : PtzCommand) (sent : List (String × PtzCommand))
    → same_text id i ≡ false
    → last_to id ((i, command) ∷ sent) ≡ last_to id sent
unfolding last_to
last-elsewhere id i command sent h = if_false _ _ _ h

-- a command to this profile leaves the others as they are
sent-others :
    (c : Controls) (command : PtzCommand)
    → Inv c
    → (id : String) → same_text id c.profile_id ≡ false
    → IsStopped id ((c.profile_id, command) ∷ c.sent)
sent-others c command inv id h =
    rw (last-elsewhere id c.profile_id command c.sent h) (inv.others id h)

start-Inv : (command : PtzCommand) (c : Controls) → Inv c → Inv (start command c)
unfolding start
start-Inv command c inv = record { others = sent-others c command inv; at_rest = λ h. cc h }

stopped-Inv :
    (c : Controls) (error : String) (moving : Bool)
    → Inv c
    → Inv (record c { error = error; moving = moving; sent = (c.profile_id, stop) ∷ c.sent })
stopped-Inv c error moving inv = record {
  others = sent-others c stop inv;
  at_rest = λ h. inr (last-here c.profile_id stop c.sent);
}

release-Inv : (c : Controls) → Inv c → Inv (release c)
unfolding release
release-Inv c inv = elim (Bool-cases c.moving) [
  | inl m ↦ rw m (stopped-Inv c c.error false inv)
  | inr m ↦ rw m (record { others = inv.others; at_rest = λ h. inv.at_rest m })
]

errored-Inv : (c : Controls) (error : String) → Inv c → Inv (record c { error = error })
errored-Inv c error inv = record { others = inv.others; at_rest = inv.at_rest }

report-Inv : (r : Rejection) (c : Controls) → Inv c → Inv (report r c)
unfolding report
report-Inv (api_error status) c inv = elim (Bool-cases (status == 403)) [
  | inl e ↦ rw e (errored-Inv c _ inv)
  | inr e ↦ rw e (errored-Inv c _ inv)
]
report-Inv other_error c inv = errored-Inv c _ inv

-- the profiles apart from this one, and this one
every_profile :
    (c : Controls) (sent : List (String × PtzCommand))
    → ((id : String) → same_text id c.profile_id ≡ false → IsStopped id sent)
    → IsStopped c.profile_id sent
    → (id : String) → IsStopped id sent
every_profile c sent others here id = elim (Bool-cases (same_text id c.profile_id)) [
  | inl e ↦ subst (λ i. IsStopped i sent) (sym ((eq_iff id c.profile_id).0 e)) here
  | inr e ↦ others id e
]

cleanup-IsStopped : (c : Controls) → Inv c → (id : String) → IsStopped id (cleanup c).sent
unfolding cleanup
cleanup-IsStopped c inv = elim (Bool-cases c.moving) [
  | inl m ↦ rw m (
      every_profile c ((c.profile_id, stop) ∷ c.sent) (sent-others c stop inv)
        (inr (last-here c.profile_id stop c.sent)))
  | inr m ↦ rw m (every_profile c c.sent inv.others (inv.at_rest m))
]

set_profile-Inv : (id : String) (c : Controls) → Inv c → Inv (set_profile id c)
unfolding set_profile
set_profile-Inv id c inv = elim (Bool-cases (same_text id c.profile_id)) [
  | inl e ↦ rw e inv
  | inr e ↦
      let stopped = cleanup-IsStopped c inv in
      rw e (record { others = λ i h. stopped i; at_rest = λ h. stopped id })
]

on_event-Inv : (e : Event) (c : Controls) → Inv c → Inv (on_event e c)
unfolding on_event on_key_down on_key_up hard_stop
on_event-Inv (pointer_down command) c inv = start-Inv command c inv
on_event-Inv pointer_up c inv = release-Inv c inv
on_event-Inv pointer_leave c inv = release-Inv c inv
on_event-Inv pointer_cancel c inv = release-Inv c inv
on_event-Inv (key_down command repeat key) c inv =
    elim (Bool-cases (not repeat && is_button_key key)) [
      | inl e ↦ rw e (start-Inv command c inv)
      | inr e ↦ rw e inv
    ]
on_event-Inv (key_up key) c inv = elim (Bool-cases (is_button_key key)) [
  | inl e ↦ rw e (release-Inv c inv)
  | inr e ↦ rw e inv
]
on_event-Inv stop_click c inv = stopped-Inv c "" false inv
on_event-Inv (rejected r) c inv = report-Inv r c inv
on_event-Inv (props_changed id) c inv = set_profile-Inv id c inv

run-Inv : (es : List Event) (c : Controls) → Inv c → Inv (run es c)
unfolding run
run-Inv [] c inv = inv
run-Inv (e ∷ es) c inv = run-Inv es (on_event e c) (on_event-Inv e c inv)

mount-Inv : (profile_id : String) → Inv (mount profile_id)
mount-Inv profile_id = record {
  others = λ id h. inl (unfold last_to in refl);
  at_rest = λ h. inl (unfold last_to in refl);
}

release-IsStopped : (c : Controls) → Inv c → IsStopped c.profile_id (release c).sent
unfolding release
release-IsStopped c inv = elim (Bool-cases c.moving) [
  | inl m ↦ rw m (inr (last-here c.profile_id stop c.sent))
  | inr m ↦ rw m (inv.at_rest m)
]

-- After any events, a change of the profile too: when the component goes, the last command to every
-- profile was to stop, if there was one, and so it is for the profile shown when a button is released.
pub run-IsStopped :
    (profile_id : String) (es : List Event)
    → ((id : String) → IsStopped id (cleanup (run es (mount profile_id))).sent)
      × IsStopped (run es (mount profile_id)).profile_id (release (run es (mount profile_id))).sent
run-IsStopped profile_id es =
    let inv = run-Inv es (mount profile_id) (mount-Inv profile_id) in
    (
      cleanup-IsStopped (run es (mount profile_id)) inv,
      release-IsStopped (run es (mount profile_id)) inv,
    )
