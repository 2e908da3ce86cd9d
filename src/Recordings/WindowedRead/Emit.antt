-- ===== src/Recordings/WindowedRead/Emit.antt =====
-- `emitReady` keeps the invariant.
use reolink_station.Prelude.{
  ℕ, zero, suc, ◌+◌, ◌-◌, ◌≤◌, Bool, true, false, ◌||◌, some, List, ◌++◌, length, ◌≡◌, ◌≢◌, inl,
  inr, refl, ◌∙◌, arith, leb, leb→le, Bool-cases, Option-cases,
}
use reolink_station.Prelude.JsMap
use reolink_station.Prelude.JsMap.{nat_key}
use reolink_station.Recordings.WindowedRead.{Reader, emit, emit_loop, emit_ready}
use reolink_station.Recordings.WindowedRead.Steps.{bytes_at, bytes_at-append}
use reolink_station.Recordings.WindowedRead.Inv.{Inv}
use reolink_station.Recordings.WindowedRead.Issue.{pump-Inv}

module _ (file : ℕ → ℕ) (start stop : ℕ) where
  -- the content of the stream after one more chunk
  content_step :
      (w b : List ℕ) (e : ℕ)
      → start ≤ e
      → w ≡ bytes_at file start (e - start)
      → b ≡ bytes_at file e (length b)
      → w ++ b ≡ bytes_at file start (e + length b - start)
  content_step w b e from hw hb =
      let at_e : start + (e - start) ≡ e = omega arith in
      let total : (e - start) + length b ≡ e + length b - start = omega arith in
      let joined = bytes_at-append file start (e - start) (length b) in
      cc (hw, hb, at_e, total, joined)

  get-remove_other :
      (k o : ℕ) (b : List ℕ) (m : JsMap.JsMap ℕ (List ℕ))
      → JsMap.get o (JsMap.remove k m) ≡ some b
      → (k ≢ o) × (JsMap.get o m ≡ some b)
  get-remove_other k o b m h =
      let law = JsMap.get-remove k o m in (λ e. ground (arith, law), ground (arith, law))

  get-remove_ne :
      (k o : ℕ) (m : JsMap.JsMap ℕ (List ℕ))
      → k ≢ o
      → JsMap.get o (JsMap.remove k m) ≡ JsMap.get o m
  get-remove_ne k o m h = ground (arith, JsMap.get-remove k o m)

  pub emit-Inv :
      (r : Reader) (b : List ℕ)
      → JsMap.get r.emit_offset r.completed ≡ some b
      → Inv file start stop r
      → Inv file start stop (emit b r)
  unfolding emit
  emit-Inv r b found v =
      let c = v.chunks r.emit_offset b found in
      let size = c.size in
      let before = c.before in
      let from = v.emit_from in
      let to = v.emit_to in
      let (k, e) = c.grid in
      record {
        emit_from = omega arith;
        emit_to = omega arith;
        next_to = v.next_to;
        content = content_step r.written b r.emit_offset v.emit_from v.content c.bytes;
        finished = λ h. let done = v.finished h in omega arith;
        emit_grid = λ h. (k + 1, omega arith);
        next_grid = v.next_grid;
        chunks = λ o d h. v.chunks o d (get-remove_other r.emit_offset o d r.completed h).1;
        pending = v.pending;
        count = v.count;
        limit = v.limit;
        unopened = λ h. let (a, u, w) = v.unopened h in (rw a (unfold JsMap.remove in refl), u, w);
        cover = λ u o g a l.
            let apart : r.emit_offset ≢ o = omega arith in
            elim (v.cover u o g (omega arith) l) [
              | inl (d, there) ↦ inl (d, get-remove_ne r.emit_offset o r.completed apart ∙ there)
              | inr reading ↦ inr reading
            ];
      }

  ended-Inv :
      (r : Reader)
      → stop ≤ r.emit_offset
      → Inv file start stop r
      → Inv file start stop (record r { ended = true })
  ended-Inv r h v = record {
    emit_from = v.emit_from;
    emit_to = v.emit_to;
    next_to = v.next_to;
    content = v.content;
    finished = λ _. h;
    emit_grid = v.emit_grid;
    next_grid = v.next_grid;
    chunks = v.chunks;
    pending = v.pending;
    count = v.count;
    limit = v.limit;
    unopened = v.unopened;
    cover = v.cover;
  }

  pub waiting-Inv :
      (r : Reader) (w : Bool)
      → r.opening ≡ false
      → Inv file start stop r
      → Inv file start stop (record r { awaiting_drain = w })
  waiting-Inv r w o v = record {
    emit_from = v.emit_from;
    emit_to = v.emit_to;
    next_to = v.next_to;
    content = v.content;
    finished = v.finished;
    emit_grid = v.emit_grid;
    next_grid = v.next_grid;
    chunks = v.chunks;
    pending = v.pending;
    count = v.count;
    limit = v.limit;
    unopened = λ h. cc (h, o);
    cover = v.cover;
  }

module _ (file : ℕ → ℕ) (start stop : ℕ) (accepts : ℕ → Bool) where
  emit_loop-Inv :
      (fuel : ℕ) (r : Reader)
      → r.opening ≡ false
      → Inv file start stop r
      → Inv file start stop (emit_loop start stop accepts fuel r)
  unfolding emit_loop
  emit_loop-Inv zero r o v = pump-Inv file start stop accepts r o v
  emit_loop-Inv (suc fuel) r o v = elim (Option-cases (JsMap.get r.emit_offset r.completed)) [
    | inl missing ↦ rw (missing, emit_loop) (pump-Inv file start stop accepts r o v)
    | inr (b, found) ↦
        let r' = emit b r in
        let v' = emit-Inv file start stop r b found v in
        rw (found, emit_loop)
          (elim (Bool-cases (leb stop r'.emit_offset)) [
            | inl done ↦ rw done (ended-Inv file start stop r' (leb→le _ _ done) v')
            | inr more ↦ elim (Bool-cases (accepts r'.emit_offset)) [
              | inl took ↦ rw (more, took) (emit_loop-Inv fuel r' (unfold emit in o) v')
              | inr full ↦
                  rw (more, full) (waiting-Inv file start stop r' true (unfold emit in o) v')
            ]
          ])
  ]

  pub emit_ready-Inv :
      (r : Reader)
      → r.opening ≡ false
      → Inv file start stop r
      → Inv file start stop (emit_ready start stop accepts r)
  unfolding emit_ready
  emit_ready-Inv r o v = elim (Bool-cases (r.settled || r.awaiting_drain)) [
    | inl idle ↦ rw idle v
    | inr busy ↦ rw busy (emit_loop-Inv (length r.completed) r o v)
  ]
