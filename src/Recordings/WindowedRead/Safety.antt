-- ===== src/Recordings/WindowedRead/Safety.antt =====
-- What holds in every state that a call of `windowedRead` reaches.
use Prim.Native.Nat.{max}
use reolink_station.Prelude.{
  ℕ, ◌+◌, ◌-◌, ◌≤◌, Bool, true, false, List, ◌∷◌, ◌++◌, length, ◌≡◌, inl, inr, refl, ap, ◌∙◌, arith,
  if_true, if_false, Bool-cases,
}
use reolink_station.Recordings.WindowedRead.{
  PendingRead, Reader, rejected, read_failed, dst_failed, open_failed, resolved, window, on_open,
  on_open_error, on_drain, on_dst_close, on_dst_error, on_read_error,
}
use reolink_station.Recordings.WindowedRead.Steps.{
  bytes_at, Step, opened, open_error, answered, read_error, drained, dst_closed, dst_error, Reach,
  called, next,
}
use reolink_station.Recordings.WindowedRead.Inv.{Inv, windowed_read-Inv, finish-Inv}
use reolink_station.Recordings.WindowedRead.Issue.{pump-Inv}
use reolink_station.Recordings.WindowedRead.Emit.{emit_ready-Inv, waiting-Inv}
use reolink_station.Recordings.WindowedRead.Replies.{on_read-Inv, gave_up-Inv, fired-Inv}

module _ (file : ℕ → ℕ) (start stop : ℕ) where
  -- what an open handle changes
  opened-Inv :
      (r : Reader) (h : Bool) (o c : ℕ)
      → Inv file start stop r
      → Inv file start stop (record r { opening = false; handle = h; opens = o; closes = c })
  opened-Inv r h o c v = record {
    emit_from = v.emit_from;
    emit_to = v.emit_to;
    next_to = v.next_to;
    content = v.content;
    finished = v.finished;
    emit_grid = v.emit_grid;
    next_grid = v.next_grid;
    chunks = v.chunks;
    pending = v.pending;
    count = v.count;
    limit = v.limit;
    unopened = λ e. cc;
    cover = v.cover;
  }

  on_open-Inv :
      (accepts : ℕ → Bool) (r : Reader)
      → Inv file start stop r
      → Inv file start stop
          (on_open start stop accepts (record r { opening = false; opens = r.opens + 1 }))
  unfolding on_open
  on_open-Inv accepts r v = elim (Bool-cases r.settled) [
    | inl done ↦ rw (if_true _ _ _ done) (opened-Inv r r.handle (r.opens + 1) (r.closes + 1) v)
    | inr live ↦
        rw (if_false _ _ _ live)
          (pump-Inv file start stop accepts _ refl (opened-Inv r true (r.opens + 1) r.closes v))
  ]

  on_read_error-Inv :
      (r : Reader) (before after : List PendingRead) (x : PendingRead)
      → r.reads ≡ before ++ x ∷ after
      → Inv file start stop r
      → Inv file start stop (on_read_error x (record r { reads = before ++ after }))
  unfolding on_read_error
  on_read_error-Inv r before after x e v = elim (Bool-cases r.settled) [
    | inl done ↦ rw (if_true _ _ _ done) (fired-Inv file start stop r before after x e v done)
    | inr live ↦
        rw (if_false _ _ _ live)
          (gave_up-Inv file start stop r before after x e v (rejected read_failed))
  ]

  -- a drain is awaited only once the file is open
  pub not_opening :
      (r : Reader) → Inv file start stop r → r.awaiting_drain ≡ true → r.opening ≡ false
  not_opening r v waits = elim (Bool-cases r.opening) [
    | inr e ↦ e
    | inl e ↦ cc ((v.unopened e).2, waits)
  ]

  module _ (accepts : ℕ → Bool) where
    Step-Inv :
        {r s : Reader}
        → Step file start stop accepts r s
        → Inv file start stop r
        → Inv file start stop s
    Step-Inv {r} (opened e) v = on_open-Inv accepts r v
    Step-Inv {r} (open_error e) v =
        unfold on_open_error in
        finish-Inv file start stop (rejected open_failed) _
          (opened-Inv r r.handle r.opens r.closes v)
    Step-Inv {r} (answered before after x n e fits) v =
        on_read-Inv file start stop r before after x e v accepts n fits
    Step-Inv {r} (read_error before after x e) v = on_read_error-Inv r before after x e v
    Step-Inv {r} (drained live waits) v =
        unfold on_drain in
        emit_ready-Inv file start stop accepts _ (not_opening r v waits)
          (waiting-Inv file start stop r false (not_opening r v waits) v)
    Step-Inv {r} dst_closed v = unfold on_dst_close in finish-Inv file start stop resolved r v
    Step-Inv {r} dst_error v =
        unfold on_dst_error in finish-Inv file start stop (rejected dst_failed) r v

    pub Reach-Inv : {r : Reader} → Reach file start stop accepts r → Inv file start stop r
    Reach-Inv called = windowed_read-Inv file start stop accepts
    Reach-Inv (next h st) = Step-Inv st (Reach-Inv h)

    -- In every state that is reached, against an honest server that answers reads in any order and
    -- in pieces, the stream has been sent the file's bytes from `start` on, in order and without a
    -- gap, none of them at or past `stop`; once it has been ended it has been sent all of them.
    pub Reach-content :
        {r : Reader}
        → Reach file start stop accepts r
        → (r.written ≡ bytes_at file start (r.emit_offset - start))
          × (r.emit_offset ≤ max start stop)
          × (r.ended ≡ true → r.written ≡ bytes_at file start (stop - start))
    Reach-content {r} h = let v = Reach-Inv h in (v.content, v.emit_to, λ e. whole r v e)
      where
        whole :
            (r : Reader)
            → Inv file start stop r
            → r.ended ≡ true
            → r.written ≡ bytes_at file start (stop - start)
        whole r v e =
            let reached = v.finished e in
            let to = v.emit_to in
            let same : r.emit_offset - start ≡ stop - start = omega arith in
            v.content ∙ ap (bytes_at file start) same

    -- Until the transfer settles, at most `window` reads are in flight, and `inflight` counts them.
    pub Reach-window :
        {r : Reader}
        → Reach file start stop accepts r
        → r.settled ≡ false
        → (r.inflight ≡ length r.reads) × (length r.reads ≤ window)
    Reach-window h live =
        let v = Reach-Inv h in
        let count = v.count live in let limit = v.limit in (count, omega arith)
