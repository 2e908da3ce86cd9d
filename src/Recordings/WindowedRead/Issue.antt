-- ===== src/Recordings/WindowedRead/Issue.antt =====
-- `pump` keeps the invariant, and stops only where its test fails.
use reolink_station.Prelude.{
  ℕ, zero, suc, ◌+◌, ◌-◌, ◌≤◌, ◌<◌, min, Bool, true, false, length-append, ◌≡◌, inl, inr, refl,
  arith, In-append_left, In-append_right, of_In-append, ltb, ltb→lt, Bool-cases,
}
use reolink_station.Prelude.JsMap.{nat_key}
use reolink_station.Recordings.WindowedRead.{
  Reader, chunk_size, window, may_issue, issue, pump_loop, pump,
}
use reolink_station.Recordings.WindowedRead.Inv.{OnGrid, Inv}

module _ (file : ℕ → ℕ) (start stop : ℕ) (accepts : ℕ → Bool) where
  record Room (r : Reader) : Type 0 where
    unsettled : r.settled ≡ false
    space : r.inflight < window
    more : r.next_offset < stop

  may_issue-Room : (r : Reader) → may_issue start stop accepts r ≡ true → Room r
  unfolding may_issue
  may_issue-Room r h = record {
    unsettled = ground arith;
    space = ground arith;
    more = ground arith;
  }

  -- grid offsets below the end of the chunk at `n` lie below `n` or are `n`
  grid_step :
      (o n : ℕ)
      → OnGrid file start stop o
      → OnGrid file start stop n
      → n ≤ o
      → o < n + min chunk_size (stop - n)
      → n ≡ o
  grid_step o n (k, e) (j, f) h m = omega arith

  issue-Inv :
      (r : Reader)
      → r.opening ≡ false
      → Room r
      → Inv file start stop r
      → Inv file start stop (issue start stop accepts r)
  unfolding issue
  issue-Inv r o c v =
      let more = c.more in
      let space = c.space in
      let next_to = v.next_to in
      let (k, e) = v.next_grid c.more in
      record {
        emit_from = v.emit_from;
        emit_to = v.emit_to;
        next_to = omega arith;
        content = v.content;
        finished = v.finished;
        emit_grid = v.emit_grid;
        next_grid = λ h. (k + 1, omega arith);
        chunks = v.chunks;
        pending = λ x m. elim (of_In-append x r.reads _ m) [
          | inl old ↦ v.pending x old
          | inr (inl new) ↦ rw new (record {
            bytes = refl;
            short = omega arith;
            size = refl;
            before = more;
            grid = (k, e);
          })
          | inr (inr nothing) ↦ absurd nothing
        ];
        count = λ u. omega (arith, v.count u, length-append {0} r.reads);
        limit = omega arith;
        unopened = λ h. cc (h, o);
        cover = λ u o g a b. elim (Bool-cases (ltb o r.next_offset)) [
          | inl old ↦ elim (v.cover u o g a (ltb→lt _ _ old)) [
            | inl done ↦ inl done
            | inr (x, m, same) ↦ inr (x, In-append_left x r.reads _ m, same)
          ]
          | inr new ↦ inr (
            _,
            In-append_right _ r.reads _ (inl refl),
            grid_step o r.next_offset g (k, e) (ground arith) b,
          )
        ];
      }

  pump_loop-Inv :
      (fuel : ℕ) (r : Reader)
      → r.opening ≡ false
      → Inv file start stop r
      → Inv file start stop (pump_loop start stop accepts fuel r)
  unfolding pump_loop
  pump_loop-Inv zero r o v = v
  pump_loop-Inv (suc fuel) r o v = elim (Bool-cases (may_issue start stop accepts r)) [
    | inl h ↦
        rw (h, pump_loop)
          (pump_loop-Inv fuel (issue start stop accepts r) (unfold issue in o)
            (issue-Inv r o (may_issue-Room r h) v))
    | inr h ↦ rw (h, pump_loop) v
  ]

  pub pump-Inv :
      (r : Reader)
      → r.opening ≡ false
      → Inv file start stop r
      → Inv file start stop (pump start stop accepts r)
  unfolding pump
  pump-Inv r o v = pump_loop-Inv window r o v
