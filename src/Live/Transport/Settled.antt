-- ===== src/Live/Transport/Settled.antt =====
-- The race of `send` with its timer.
use reolink_station.Prelude.{
  Bool, true, false, none, some, [], ◌∷◌, ◌≡◌, ◌≢◌, ◌⊎◌, inl, inr, refl, sym, ◌∙◌,
}
use reolink_station.Live.Transport.{
  Message, Outcome, resolved, unavailable, Send, settle, publish, send, on_connect, on_published,
  on_timeout, Step, connects, answers, expires, Reach, called, next,
}

module _ (msg : Message) where
  -- How far a call is: it waits for the connection, for the answer of the broker, or it is over.
  data Stage : Send → Type 0 where
    waits : Stage (record {
      listening = true;
      publishing = false;
      timer = true;
      published = [];
      outcome = none;
    })
    asks : Stage (record {
      listening = false;
      publishing = true;
      timer = true;
      published = msg ∷ [];
      outcome = none;
    })
    gave_up : Stage (record {
      listening = false;
      publishing = false;
      timer = false;
      published = [];
      outcome = some unavailable;
    })
    over :
        (busy : Bool) (o : Outcome)
        → Stage (record {
          listening = false;
          publishing = busy;
          timer = false;
          published = msg ∷ [];
          outcome = some o;
        })

  Step-Stage : {s u : Send} → Step msg s u → Stage s → Stage u
  unfolding on_connect on_published on_timeout settle publish
  Step-Stage (connects e) waits = asks
  Step-Stage (connects e) asks = cc e
  Step-Stage (connects e) gave_up = cc e
  Step-Stage (connects e) (over busy o) = cc e
  Step-Stage (answers failed e) waits = cc e
  Step-Stage (answers true e) asks = over false unavailable
  Step-Stage (answers false e) asks = over false resolved
  Step-Stage (answers failed e) gave_up = cc e
  Step-Stage (answers true e) (over busy o) = over false o
  Step-Stage (answers false e) (over busy o) = over false o
  Step-Stage (expires e) waits = gave_up
  Step-Stage (expires e) asks = over true unavailable
  Step-Stage (expires e) gave_up = cc e
  Step-Stage (expires e) (over busy o) = cc e

  Reach-Stage : {s : Send} → Reach msg s → Stage s
  unfolding send publish
  Reach-Stage (called true) = asks
  Reach-Stage (called false) = waits
  Reach-Stage (next h t) = Step-Stage t (Reach-Stage h)

  -- In every state that is reached the message has been handed to the client at most once. Until the
  -- call is over its timer runs; from then on neither its timer nor its listener is left, and it
  -- returned without an error only if the message was handed over.
  pub Reach-settled :
      {s : Send}
      → Reach msg s
      → ((s.published ≡ []) ⊎ (s.published ≡ msg ∷ []))
        × (s.outcome ≡ none → s.timer ≡ true)
        × (s.outcome ≢ none → (s.timer ≡ false) × (s.listening ≡ false))
        × (s.outcome ≡ some resolved → s.published ≡ msg ∷ [])
  Reach-settled {s} h = facts s (Reach-Stage h)
    where
      facts :
          (s : Send)
          → Stage s
          → ((s.published ≡ []) ⊎ (s.published ≡ msg ∷ []))
            × (s.outcome ≡ none → s.timer ≡ true)
            × (s.outcome ≢ none → (s.timer ≡ false) × (s.listening ≡ false))
            × (s.outcome ≡ some resolved → s.published ≡ msg ∷ [])
      facts s waits = (inl refl, λ e. refl, λ e. absurd (e refl), λ e. cc e)
      facts s asks = (inr refl, λ e. refl, λ e. absurd (e refl), λ e. refl)
      facts s gave_up = (inl refl, λ e. cc e, λ e. (refl, refl), λ e. cc e)
      facts s (over busy o) = (inr refl, λ e. cc e, λ e. (refl, refl), λ e. refl)

  -- Any number of events that reach the call.
  pub data Later (s : Send) : Send → Type 0 where
    here : Later s s
    then_step : {t u : Send} → Later s t → Step msg t u → Later s u

  Later-Stage : {s u : Send} → Later s u → Stage s → Stage u
  Later-Stage here g = g
  Later-Stage (then_step l t) g = Step-Stage t (Later-Stage l g)

  abbrev Unchanged : Send → Send → Type 0
  Unchanged s u = (u.published ≡ s.published) × (u.outcome ≡ s.outcome)

  -- one event behind the end
  over-Unchanged : {s u : Send} → Stage s → s.outcome ≢ none → Step msg s u → Unchanged s u
  unfolding on_published
  over-Unchanged waits e t = absurd (e refl)
  over-Unchanged asks e t = absurd (e refl)
  over-Unchanged gave_up e (connects l) = cc l
  over-Unchanged gave_up e (answers failed l) = cc l
  over-Unchanged gave_up e (expires l) = cc l
  over-Unchanged (over busy o) e (connects l) = cc l
  over-Unchanged (over busy o) e (answers true l) = (refl, refl)
  over-Unchanged (over busy o) e (answers false l) = (refl, refl)
  over-Unchanged (over busy o) e (expires l) = cc l

  Later-Unchanged : {s u : Send} → Stage s → s.outcome ≢ none → Later s u → Unchanged s u
  Later-Unchanged g e here = (refl, refl)
  Later-Unchanged g e (then_step l t) =
      let (p, o) = Later-Unchanged g e l in
      let (q, r) = over-Unchanged (Later-Stage l g) (λ f. e (sym o ∙ f)) t in (q ∙ p, r ∙ o)

  -- Once the call is over, no later events hand a message to the client or change the outcome.
  pub Reach-quiet :
      {s u : Send}
      → Reach msg s
      → s.outcome ≢ none
      → Later s u
      → (u.published ≡ s.published) × (u.outcome ≡ s.outcome)
  Reach-quiet h done l = Later-Unchanged (Reach-Stage h) done l
