-- ===== src/Recordings/WindowedRead/Handles.antt =====
-- The remote file's handle: it is closed once the transfer has settled, and once only, also where
-- the stream was closed before the file was open. The promise settles once.
use reolink_station.Prelude.{
  ℕ, zero, suc, ◌+◌, ◌≤◌, Bool, true, false, ◌||◌, none, List, ◌++◌, length, ◌≡◌, ◌≢◌, inl, inr,
  refl, ap, sym, ◌∙◌, arith, if_true, if_false, Bool-cases, Option-cases, leb, ltb, if◌then◌else◌,
}
use reolink_station.Prelude.JsMap
use reolink_station.Prelude.JsMap.{nat_key}
use reolink_station.Recordings.WindowedRead.{
  PendingRead, Reader, Outcome, rejected, resolved, read_failed, open_failed, dst_failed, window,
  finish, may_issue, issue, pump_loop, pump, emit, emit_loop, emit_ready, store_chunk,
  continue_read, windowed_read, on_read, on_open, on_open_error, on_drain, on_dst_close,
  on_dst_error, on_read_error, unexpected_eof,
}
use reolink_station.Recordings.WindowedRead.Steps.{
  Step, opened, open_error, answered, read_error, drained, dst_closed, dst_error, Reach, called,
  next,
}
use reolink_station.Recordings.WindowedRead.Answer.{
  on_read-settled, on_read-eof, on_read-short, on_read-full,
}

record Handled (r : Reader) : Type 0 where
  waiting : r.opening ≡ true → (r.opens ≡ 0) × (r.closes ≡ 0) × (r.handle ≡ false)
  live :
      r.settled ≡ false
      → (r.closes ≡ 0) × (r.outcome ≡ none) × (r.opens ≡ (if r.handle then 1 else 0))
  done : r.settled ≡ true → (r.closes ≡ r.opens) × (r.outcome ≢ none)
  once : r.opens ≤ 1

finish-Handled : (o : Outcome) (r : Reader) → Handled r → Handled (finish o r)
unfolding finish
finish-Handled o r h = elim (Bool-cases r.settled) [
  | inl d ↦ rw (if_true _ _ _ d) h
  | inr l ↦
      let (closes, outcome, opens) = h.live l in
      rw (if_false _ _ _ l) (record {
        waiting = λ w. let (a, b, c) = h.waiting w in (a, ground arith, c);
        live = λ e. cc;
        done = λ _. (ground arith, cc);
        once = h.once;
      })
]

-- What the loops leave alone: two states that differ in the transfer only.
abbrev SameHandle : Reader → Reader → Type 0
SameHandle r s =
    (s.opening ≡ r.opening)
    × (s.settled ≡ r.settled)
    × (s.handle ≡ r.handle)
    × (s.outcome ≡ r.outcome)
    × (s.opens ≡ r.opens)
    × (s.closes ≡ r.closes)

SameHandle-Handled : (r s : Reader) → SameHandle r s → Handled r → Handled s
SameHandle-Handled r s e h =
    let (opening, settled, handle, outcome, opens, closes) = e in
    let once = h.once in
    record {
      waiting =
          λ w. let (a, b, c) = h.waiting (sym opening ∙ w) in (opens ∙ a, closes ∙ b, handle ∙ c);
      live = λ l.
          let (a, b, c) = h.live (sym settled ∙ l) in
          (closes ∙ a, outcome ∙ b, opens ∙ c ∙ ap (λ t. if t then 1 else 0) (sym handle));
      done = λ d.
          let (a, b) = h.done (sym settled ∙ d) in
          (closes ∙ a ∙ sym opens, λ n. b (sym outcome ∙ n));
      once = omega arith;
    }

same : (r : Reader) → SameHandle r r
same r = (refl, refl, refl, refl, refl, refl)

module _ (start stop : ℕ) (accepts : ℕ → Bool) where
  pump_loop-Handled :
      (fuel : ℕ) (r : Reader) → Handled r → Handled (pump_loop start stop accepts fuel r)
  unfolding pump_loop
  pump_loop-Handled zero r h = h
  pump_loop-Handled (suc fuel) r h = elim (Bool-cases (may_issue start stop accepts r)) [
    | inl more ↦
        rw (more, pump_loop)
          (pump_loop-Handled fuel (issue start stop accepts r)
            (SameHandle-Handled r (issue start stop accepts r) (same r) h))
    | inr stop_here ↦ rw (stop_here, pump_loop) h
  ]

  emit_loop-Handled :
      (fuel : ℕ) (r : Reader) → Handled r → Handled (emit_loop start stop accepts fuel r)
  unfolding emit_loop pump
  emit_loop-Handled zero r h = pump_loop-Handled window r h
  emit_loop-Handled (suc fuel) r h = elim (Option-cases (JsMap.get r.emit_offset r.completed)) [
    | inl missing ↦ rw (missing, emit_loop) (pump_loop-Handled window r h)
    | inr (b, found) ↦
        let r' = emit b r in
        let h' = SameHandle-Handled r r' (same r) h in
        rw (found, emit_loop)
          (elim (Bool-cases (leb stop r'.emit_offset)) [
            | inl done ↦ rw done (SameHandle-Handled r' (record r' { ended = true }) (same r') h')
            | inr more ↦ elim (Bool-cases (accepts r'.emit_offset)) [
              | inl took ↦ rw (more, took) (emit_loop-Handled fuel r' h')
              | inr full ↦
                  rw (more, full)
                    (SameHandle-Handled r' (record r' { awaiting_drain = true }) (same r') h')
            ]
          ])
  ]

  emit_ready-Handled : (r : Reader) → Handled r → Handled (emit_ready start stop accepts r)
  unfolding emit_ready
  emit_ready-Handled r h = elim (Bool-cases (r.settled || r.awaiting_drain)) [
    | inl off ↦ rw (if_true _ r _ off) h
    | inr on ↦ rw (if_false _ r _ on) (emit_loop-Handled (length r.completed) r h)
  ]

  on_read-Handled :
      (x : PendingRead) (b : List ℕ) (r : Reader)
      → Handled r
      → Handled (on_read start stop accepts x b r)
  on_read-Handled x b r h = elim (Bool-cases r.settled) [
    | inl done ↦ rw (on_read-settled start stop accepts x b r done) h
    | inr live ↦ elim (Bool-cases (leb (length b) 0)) [
      | inl nothing ↦
          rw (on_read-eof start stop accepts x b r live nothing)
            (finish-Handled (rejected (unexpected_eof (x.offset + length x.filled))) r h)
      | inr more ↦ elim (Bool-cases (ltb (length x.filled + length b) x.len)) [
        | inl short ↦
            rw (on_read-short start stop accepts x b r live more short)
              (unfold continue_read in SameHandle-Handled r (continue_read x b r) (same r) h)
        | inr full ↦ rw (on_read-full start stop accepts x b r live more full) (
            emit_ready-Handled (store_chunk x b r)
              (unfold store_chunk in SameHandle-Handled r (store_chunk x b r) (same r) h))
      ]
    ]
  ]

  on_open-Handled :
      (r : Reader)
      → r.opening ≡ true
      → Handled r
      → Handled (on_open start stop accepts (record r { opening = false; opens = r.opens + 1 }))
  unfolding on_open pump
  on_open-Handled r o h =
      let (opens, closes, handle) = h.waiting o in
      elim (Bool-cases r.settled) [
        | inl d ↦ rw (if_true _ _ _ d) (record {
          waiting = λ e. cc;
          live = λ l. cc;
          done = λ _. (omega arith, (h.done d).1);
          once = omega arith;
        })
        | inr l ↦
            let (a, b, c) = h.live l in
            rw (if_false _ _ _ l) (
              pump_loop-Handled window
                (record r { opening = false; opens = r.opens + 1; handle = true })
                (record {
                  waiting = λ e. cc;
                  live = λ _. (closes, b, omega arith);
                  done = λ d. cc;
                  once = omega arith;
                }))
      ]

  called-Handled : Handled (windowed_read start stop accepts)
  unfolding windowed_read
  called-Handled = elim (Bool-cases (leb stop start)) [
    | inl n ↦ rw (if_true _ _ _ n) (record {
      waiting = λ e. cc;
      live = λ _. (refl, refl, refl);
      done = λ e. cc;
      once = omega arith;
    })
    | inr m ↦ rw (if_false _ _ _ m) (record {
      waiting = λ _. (refl, refl, refl);
      live = λ _. (refl, refl, refl);
      done = λ e. cc;
      once = omega arith;
    })
  ]

module _ (file : ℕ → ℕ) (start stop : ℕ) (accepts : ℕ → Bool) where
  Step-Handled : {r s : Reader} → Step file start stop accepts r s → Handled r → Handled s
  unfolding on_open_error on_read_error on_drain on_dst_close on_dst_error
  Step-Handled {r} (opened o) h = on_open-Handled start stop accepts r o h
  Step-Handled {r} (open_error o) h =
      let f = record r { opening = false } in
      finish-Handled (rejected open_failed) f
        (record { waiting = λ e. cc; live = h.live; done = h.done; once = h.once })
  Step-Handled {r} (answered before after x n e fits) h =
      let f = record r { reads = before ++ after } in
      on_read-Handled start stop accepts x _ f (SameHandle-Handled r f (same r) h)
  Step-Handled {r} (read_error before after x e) h =
      let f = record r { reads = before ++ after } in
      let h' = SameHandle-Handled r f (same r) h in
      elim (Bool-cases r.settled) [
        | inl d ↦ rw (if_true _ _ _ d) h'
        | inr l ↦ rw (if_false _ _ _ l) (finish-Handled (rejected read_failed) f h')
      ]
  Step-Handled {r} (drained live waits) h =
      let f = record r { awaiting_drain = false } in
      emit_ready-Handled start stop accepts f (SameHandle-Handled r f (same r) h)
  Step-Handled {r} dst_closed h = finish-Handled resolved r h
  Step-Handled {r} dst_error h = finish-Handled (rejected dst_failed) r h

  Reach-Handled : {r : Reader} → Reach file start stop accepts r → Handled r
  Reach-Handled called = called-Handled start stop accepts
  Reach-Handled (next h st) = Step-Handled st (Reach-Handled h)

  -- In every state that is reached at most one handle has been opened. Until the transfer settles
  -- none has been closed and the promise is pending; from then on every handle that was opened has
  -- been closed, as often, and the promise has its outcome.
  pub Reach-handles :
      {r : Reader}
      → Reach file start stop accepts r
      → (r.opens ≤ 1)
        × (r.settled ≡ false → (r.closes ≡ 0) × (r.outcome ≡ none))
        × (r.settled ≡ true → (r.closes ≡ r.opens) × (r.outcome ≢ none))
  Reach-handles h = let v = Reach-Handled h in (v.once, λ l. ((v.live l).0, (v.live l).1), v.done)
