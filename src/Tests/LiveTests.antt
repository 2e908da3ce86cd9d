-- ===== src/Tests/LiveTests.antt =====
-- One call of `send` that waits for the broker, and one that gives up.
use reolink_station.Prelude.{ℕ, String, true, false, none, some, [], ◌∷◌, ◌≡◌, ◌≢◌, ◌⊎◌, refl}
use reolink_station.Live.Ptz.{left, stop, build_ptz_topic, build_ptz_payload, command_text}
use reolink_station.Live.Transport.{
  Message, message, Send, resolved, unavailable, send, settle, publish, on_connect, on_published,
  on_timeout, connects, answers, expires, Reach, called, next,
}
use reolink_station.Live.Transport.Settled.{Reach-settled, here, then_step, Reach-quiet}

abbrev number : ℕ → String
number n = "32"

abbrev moved : Message
moved = message number "p1" left none

ptz_tests :
    (moved ≡ ("neolink/p1/control/ptz", "left 32"))
    × (message number "p1" stop (some 5) ≡ ("neolink/p1/control/ptz", "stop"))
unfolding build_ptz_topic build_ptz_payload command_text
ptz_tests = (refl, refl)

abbrev sent : Send
sent = record {
  listening = false;
  publishing = false;
  timer = false;
  published = moved ∷ [];
  outcome = some resolved;
}

sent_reached : Reach moved sent
unfolding send publish on_connect on_published settle
sent_reached = next (next (called false) (connects refl)) (answers false refl)

abbrev late : Send
late = record {
  listening = false;
  publishing = true;
  timer = false;
  published = moved ∷ [];
  outcome = some unavailable;
}

late_reached : Reach moved late
unfolding send publish on_timeout settle
late_reached = next (called true) (expires refl)

Reach-settled_example :
    ((sent.published ≡ []) ⊎ (sent.published ≡ moved ∷ []))
    × (sent.outcome ≡ none → sent.timer ≡ true)
    × (sent.outcome ≢ none → (sent.timer ≡ false) × (sent.listening ≡ false))
    × (sent.outcome ≡ some resolved → sent.published ≡ moved ∷ [])
Reach-settled_example = Reach-settled moved sent_reached

some_answer : late.outcome ≢ none
some_answer e = cc e

Reach-quiet_example :
    ((on_published false late).published ≡ late.published)
    × ((on_published false late).outcome ≡ late.outcome)
Reach-quiet_example =
    Reach-quiet moved late_reached some_answer (then_step here (answers false refl))
