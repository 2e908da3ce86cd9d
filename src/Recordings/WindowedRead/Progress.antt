-- ===== src/Recordings/WindowedRead/Progress.antt =====
-- The loops of `pump` and `emitReady` run to their ends: what they leave to do.
use reolink_station.Prelude.{
  ℕ, zero, suc, ◌+◌, ◌≤◌, ◌<◌, Bool, true, false, ◌||◌, none, List, [], ◌∷◌, length, ◌≡◌, ◌⊎◌, inl,
  inr, refl, arith, if_true, if_false, Bool-cases, Option-cases, leb, ltb,
}
use reolink_station.Prelude.JsMap
use reolink_station.Prelude.JsMap.{nat_key}
use reolink_station.Recordings.WindowedRead.{
  PendingRead, Reader, Outcome, window, finish, may_issue, issue, pump_loop, pump, emit, emit_loop,
  emit_ready, store_chunk, continue_read, on_read,
}
use reolink_station.Recordings.WindowedRead.Answer.{
  on_read-settled, on_read-eof, on_read-short, on_read-full,
}

pub finish-settled : (o : Outcome) (r : Reader) → (finish o r).settled ≡ true
unfolding finish
finish-settled o r = elim (Bool-cases r.settled) [
  | inl done ↦ rw (if_true _ _ _ done) done
  | inr live ↦ rw (if_false _ _ _ live)
]

module _ (start stop : ℕ) (accepts : ℕ → Bool) where
  -- nothing is left to emit, and nothing may be asked for
  abbrev pub Idle : Reader → Type 0
  Idle r = (JsMap.get r.emit_offset r.completed ≡ none) × (may_issue start stop accepts r ≡ false)

  pump_loop-Idle :
      (fuel : ℕ) (r : Reader)
      → window ≤ fuel + r.inflight
      → JsMap.get r.emit_offset r.completed ≡ none
      → Idle (pump_loop start stop accepts fuel r)
  unfolding pump_loop
  pump_loop-Idle zero r enough e = (e, ground arith)
  pump_loop-Idle (suc fuel) r enough e = elim (Bool-cases (may_issue start stop accepts r)) [
    | inl more ↦
        rw (more, pump_loop) (pump_loop-Idle fuel (issue start stop accepts r) (omega arith) e)
    | inr stop_here ↦ rw (stop_here, pump_loop) (e, stop_here)
  ]

  pump_loop-ended :
      (fuel : ℕ) (r : Reader) → r.ended ≡ true → (pump_loop start stop accepts fuel r).ended ≡ true
  unfolding pump_loop
  pump_loop-ended zero r e = e
  pump_loop-ended (suc fuel) r e = elim (Bool-cases (may_issue start stop accepts r)) [
    | inl more ↦ rw (more, pump_loop) (pump_loop-ended fuel (issue start stop accepts r) e)
    | inr stop_here ↦ rw (stop_here, pump_loop) e
  ]

  pump_loop-emit_offset :
      (fuel : ℕ) (r : Reader) → (pump_loop start stop accepts fuel r).emit_offset ≡ r.emit_offset
  unfolding pump_loop
  pump_loop-emit_offset zero r = refl
  pump_loop-emit_offset (suc fuel) r = elim (Bool-cases (may_issue start stop accepts r)) [
    | inl more ↦ rw (more, pump_loop) (pump_loop-emit_offset fuel (issue start stop accepts r))
    | inr stop_here ↦ rw (stop_here, pump_loop)
  ]

  -- the stream is ended, or some of the range is owed and the stream is full or nothing is to be done
  abbrev pub Quiet : Reader → Type 0
  Quiet r = (r.ended ≡ true) ⊎ ((r.emit_offset < stop) × ((r.awaiting_drain ≡ true) ⊎ Idle r))

  -- what the loops start from
  abbrev pub Sound : Reader → Type 0
  Sound r = (r.ended ≡ true) ⊎ (r.emit_offset < stop)

  length-zero : (m : JsMap.JsMap ℕ (List ℕ)) (o : ℕ) → length m ≤ 0 → JsMap.get o m ≡ none
  unfolding JsMap.get
  length-zero [] o h = refl
  length-zero (x ∷ m) o h = absurd (omega arith)

  pub pump-Quiet :
      (r : Reader)
      → Sound r
      → JsMap.get r.emit_offset r.completed ≡ none
      → Quiet (pump start stop accepts r)
  unfolding pump
  pump-Quiet r (inl e) missing = inl (pump_loop-ended window r e)
  pump-Quiet r (inr h) missing =
      inr
        (rw (pump_loop-emit_offset window r) h, inr (pump_loop-Idle window r (omega arith) missing))

  -- As many rounds as there are finished chunks are enough.
  pub emit_loop-Quiet :
      (fuel : ℕ) (r : Reader)
      → length r.completed ≤ fuel
      → Sound r
      → Quiet (emit_loop start stop accepts fuel r)
  unfolding emit_loop
  emit_loop-Quiet zero r enough w = pump-Quiet r w (length-zero r.completed r.emit_offset enough)
  emit_loop-Quiet (suc fuel) r enough w =
      elim (Option-cases (JsMap.get r.emit_offset r.completed)) [
        | inl missing ↦ rw (missing, emit_loop) (pump-Quiet r w missing)
        | inr (b, found) ↦
            let r' = emit b r in
            let fewer = JsMap.length-remove_lt r.emit_offset b r.completed found in
            rw (found, emit_loop)
              (elim (Bool-cases (leb stop r'.emit_offset)) [
                | inl done ↦ rw done (inl refl)
                | inr more ↦
                    let below : r'.emit_offset < stop = ground arith in
                    elim (Bool-cases (accepts r'.emit_offset)) [
                      | inl took ↦
                          rw (more, took) (emit_loop-Quiet fuel r' (omega arith) (inr below))
                      | inr full ↦ rw (more, full) (inr (below, inl refl))
                    ]
              ])
      ]

  -- a settled transfer, one that waits for its handle, or a quiet one
  abbrev pub Rest : Reader → Type 0
  Rest r = (r.settled ≡ true) ⊎ ((r.opening ≡ true) × (r.emit_offset < stop)) ⊎ Quiet r

  kept-Rest : (r : Reader) → (r.settled || r.awaiting_drain) ≡ true → Sound r → Rest r
  kept-Rest r off (inl e) = inr (inr (inl e))
  kept-Rest r off (inr below) = elim (Bool-cases r.settled) [
    | inl done ↦ inl done
    | inr live ↦ inr (inr (inr (below, inl (ground arith))))
  ]

  pub emit_ready-Rest : (r : Reader) → Sound r → Rest (emit_ready start stop accepts r)
  unfolding emit_ready
  emit_ready-Rest r w = elim (Bool-cases (r.settled || r.awaiting_drain)) [
    | inl off ↦ rw (if_true _ r _ off) (kept-Rest r off w)
    | inr on ↦
        rw (if_false _ r _ on) (inr (inr (emit_loop-Quiet (length r.completed) r (omega arith) w)))
  ]

  pub Quiet-Sound : (r : Reader) → Quiet r → Sound r
  Quiet-Sound r (inl e) = inl e
  Quiet-Sound r (inr h) = inr h.0

  -- an answer is awaited only by a transfer that is settled or has its handle
  pub answered-Rest :
      (r : Reader) (reads : List PendingRead) (x : PendingRead) (b : List ℕ)
      → r.opening ≡ false
      → Rest r
      → Rest (on_read start stop accepts x b (record r { reads = reads }))
  answered-Rest r reads x b open_done (inl done) =
      inl (rw (on_read-settled start stop accepts x b (record r { reads = reads }) done) done)
  answered-Rest r reads x b open_done (inr (inl h)) = cc (h.0, open_done)
  answered-Rest r reads x b open_done (inr (inr q)) =
      let f = record r { reads = reads } in
      elim (Bool-cases r.settled) [
        | inl done ↦ inl (rw (on_read-settled start stop accepts x b f done) done)
        | inr live ↦ elim (Bool-cases (leb (length b) 0)) [
          | inl nothing ↦
              inl (rw (on_read-eof start stop accepts x b f live nothing) (finish-settled _ f))
          | inr more ↦ elim (Bool-cases (ltb (length x.filled + length b) x.len)) [
            | inl short ↦
                rw (on_read-short start stop accepts x b f live more short)
                  (unfold continue_read may_issue in inr (inr q))
            | inr full ↦
                rw (on_read-full start stop accepts x b f live more full)
                  (emit_ready-Rest (store_chunk x b f) (unfold store_chunk in Quiet-Sound r q))
          ]
        ]
      ]
