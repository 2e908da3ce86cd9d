-- ===== src/Recordings/WindowedRead/Buffering.antt =====
-- The window bounds the reads in flight and not the finished chunks: while the first read of a
-- range is slow the others go on, and their chunks wait in memory.
use reolink_station.Prelude.{
  ℕ, zero, suc, ◌+◌, ◌-◌, ◌*◌, ◌≤◌, ◌<◌, Bool, true, false, ◌||◌, none, some, List, [], ◌∷◌, ◌++◌,
  length, ◌≡◌, inl, inr, refl, ap, sym, subst, ◌∙◌, arith, if_false, Bool-cases, Option-cases, leb,
  ◌==◌,
}
use reolink_station.Prelude.JsMap
use reolink_station.Prelude.JsMap.{nat_key}
use reolink_station.Recordings.WindowedRead.{
  PendingRead, Reader, chunk_size, window, pump_loop, pump, emit_loop, emit_ready, store_chunk,
  windowed_read, fresh, on_read, on_open,
}
use reolink_station.Recordings.WindowedRead.Steps.{
  bytes_at, length-bytes_at, opened, answered, Reach, called, next,
}
use reolink_station.Recordings.WindowedRead.Answer.{on_read-full}
use reolink_station.Recordings.WindowedRead.Safety.{Reach-content}
use reolink_station.Recordings.WindowedRead.Rounds.{
  pos, whole_read, asked, asked_snoc, moved, issue_whole, Asking, may_issue-Asking, may_issue_full,
  pump_loop_more, pump_loop_done, pump_loop_whole,
}

module _ (file : ℕ → ℕ) (start stop : ℕ) (accepts : ℕ → Bool) where
  -- the first chunk is still being read, and the `n` chunks behind it have been
  record Stalled (n : ℕ) (r : Reader) : Type 0 where
    reached : Reach file start stop accepts r
    asking : Asking start stop accepts r
    emitted : r.emit_offset ≡ start
    held : length r.completed ≡ n
    keys :
        (o : ℕ) (b : List ℕ)
        → JsMap.get o r.completed ≡ some b
        → (start < o) × (o < pos start stop accepts (suc n))
    full : r.inflight ≡ window
    frontier : r.next_offset ≡ pos start stop accepts (n + window)
    queue : r.reads ≡ whole_read start stop accepts 0 ∷ asked start stop accepts (suc n) 23

  absent :
      (n o : ℕ) (r : Reader)
      → Stalled n r
      → ¬ ((start < o) × (o < pos start stop accepts (suc n)))
      → JsMap.get o r.completed ≡ none
  absent n o r s out = elim (Option-cases (JsMap.get o r.completed)) [
    | inl e ↦ e
    | inr (b, there) ↦ absurd (out (s.keys o b there))
  ]

  emit_ready_missing :
      (r : Reader)
      → Asking start stop accepts r
      → JsMap.get r.emit_offset r.completed ≡ none
      → emit_ready start stop accepts r ≡ pump start stop accepts r
  unfolding emit_ready
  emit_ready_missing r a missing =
      let on : (r.settled || r.awaiting_drain) ≡ false = ground arith in
      if_false _ r _ on ∙ loop (length r.completed)
    where
      loop : (fuel : ℕ) → emit_loop start stop accepts fuel r ≡ pump start stop accepts r
      loop zero = refl
      loop (suc fuel) = rw (missing, emit_loop)

  -- one round of `pump`, with room for one read
  pump_one :
      (r : Reader) (k : ℕ)
      → Asking start stop accepts r
      → r.inflight + 1 ≡ window
      → r.next_offset ≡ pos start stop accepts k
      → pos start stop accepts (suc k) ≤ stop
      → pump start stop accepts r
        ≡ moved start stop accepts r
            (r.inflight + 1)
            (r.reads ++ whole_read start stop accepts k ∷ [])
            (pos start stop accepts (suc k))
  unfolding pump
  pump_one r k a count e room =
      let t =
        moved start stop accepts r (r.inflight + 1)
          (r.reads ++ whole_read start stop accepts k ∷ []) (pos start stop accepts (suc k)) in
      pump_loop_more start stop accepts 23 r
        (may_issue-Asking start stop accepts r a (omega arith) (omega arith))
      ∙ ap (pump_loop start stop accepts 23) (issue_whole start stop accepts r k e room)
      ∙ pump_loop_done start stop accepts 23 t (may_issue_full start stop accepts t (omega arith))

  -- the second read of the queue is answered in full, and a read further on takes its place
  module _ (n : ℕ) (r : Reader) (s : Stalled n r) (m : ℕ) (size : m ≡ chunk_size)
      (room : pos start stop accepts (suc (n + window)) ≤ stop) where
    abbrev second : PendingRead
    second = whole_read start stop accepts (suc n)

    abbrev rest : List PendingRead
    rest = whole_read start stop accepts 0 ∷ asked start stop accepts (suc (suc n)) 22

    abbrev block : List ℕ
    block = bytes_at file (second.offset + length second.filled) m

    abbrev stored : Reader
    stored = record r {
      reads = rest;
      inflight = r.inflight - 1;
      completed = JsMap.set second.offset block r.completed;
    }

    abbrev later : Reader
    later =
        moved start stop accepts stored (stored.inflight + 1)
          (rest ++ whole_read start stop accepts (n + window) ∷ [])
          (pos start stop accepts (suc (n + window)))

    length-block : length block ≡ m
    length-block = length-bytes_at file (second.offset + length second.filled) m

    stored-missing : JsMap.get stored.emit_offset stored.completed ≡ none
    stored-missing =
        let gone = absent n r.emit_offset r s (λ h. let e = s.emitted in omega arith) in
        let apart : (second.offset == r.emit_offset) ≡ false = let e = s.emitted in ground arith in
        JsMap.get-set second.offset r.emit_offset block r.completed ∙ if_false _ _ _ apart ∙ gone

    answer_second : on_read start stop accepts second block (record r { reads = rest }) ≡ later
    answer_second =
        let full = s.full in
        let len = length-block in
        on_read-full start stop accepts second block (record r { reads = rest }) s.asking.0
          (ground arith) (ground arith)
        ∙ unfold store_chunk in
          emit_ready_missing stored s.asking stored-missing
          ∙ pump_one stored (n + window) s.asking (omega arith) s.frontier room

    later-Stalled : Stalled (suc n) later
    later-Stalled =
        let full = s.full in
        let held = s.held in
        let missing = absent n second.offset r s (λ h. omega arith) in
        let longer = JsMap.length-set_absent second.offset block r.completed missing in
        record {
          reached = subst (Reach file start stop accepts) answer_second (
              next s.reached (
                answered (whole_read start stop accepts 0 ∷ [])
                  (asked start stop accepts (suc (suc n)) 22) second m s.queue (omega arith)));
          asking = s.asking;
          emitted = s.emitted;
          held = omega arith;
          keys = λ o b there. elim (Bool-cases (second.offset == o)) [
            | inl same ↦ let at_o : second.offset ≡ o = ground arith in (omega arith, omega arith)
            | inr other ↦
                let old = s.keys o b (
                  sym (JsMap.get-set second.offset o block r.completed ∙ if_false _ _ _ other)
                  ∙ there) in
                (old.0, omega arith)
          ];
          full = omega arith;
          frontier = omega arith;
          queue =
              let at_end : suc (suc n) + 22 ≡ n + window = omega arith in
              ap (λ l. whole_read start stop accepts 0 ∷ l)
                (ap
                    (λ k.
                      asked start stop accepts (suc (suc n)) 22
                      ++ whole_read start stop accepts k ∷ [])
                    (sym at_end)
                  ∙ asked_snoc start stop accepts (suc (suc n)) 22);
        }

  -- the state behind `sftp.open`, with a window of reads in flight
  module _ (room : pos start stop accepts window ≤ stop) where
    abbrev began : Reader
    began = record (fresh start stop accepts) { opening = true }

    abbrev held_open : Reader
    held_open = record (fresh start stop accepts) { handle = true; opens = 1 }

    abbrev primed : Reader
    primed =
        moved start stop accepts held_open 24 (asked start stop accepts 0 24)
          (pos start stop accepts 24)

    windowed_read-eq-began : windowed_read start stop accepts ≡ began
    unfolding windowed_read
    windowed_read-eq-began =
        let more : leb stop start ≡ false = ground arith in if_false _ _ began more

    began-Reach : Reach file start stop accepts began
    began-Reach = subst (Reach file start stop accepts) windowed_read-eq-began called

    primed-reached :
        on_open start stop accepts (record began { opening = false; opens = began.opens + 1 })
        ≡ primed
    unfolding on_open pump
    primed-reached =
        pump_loop_whole start stop accepts window held_open 0 (refl, refl) (omega arith)
          (omega arith) room

    primed-Stalled : Stalled 0 primed
    unfolding JsMap.get
    primed-Stalled = record {
      reached =
          subst (Reach file start stop accepts) primed-reached (next began-Reach (opened refl));
      asking = (refl, refl);
      emitted = refl;
      held = refl;
      keys = λ o b there. cc;
      full = refl;
      frontier = refl;
      queue = refl;
    }

  stalls : (n : ℕ) → pos start stop accepts (n + window) ≤ stop → (r : Reader) × Stalled n r
  stalls zero room = (primed room, primed-Stalled room)
  stalls (suc n) room =
      let (r, s) = stalls n (omega arith) in
      let enough : pos start stop accepts (suc (n + window)) ≤ stop = omega arith in
      (later n r s chunk_size refl enough, later-Stalled n r s chunk_size refl enough)

  -- For every `n`, a transfer of at least `n + window` whole chunks can reach a state in which `n`
  -- finished chunks are held in memory and nothing has been written: while the first read is slow,
  -- what is held is not bounded by the window.
  pub completed_unbounded :
      (n : ℕ)
      → start + chunk_size * (n + window) ≤ stop
      → (r : Reader) × Reach file start stop accepts r × (r.written ≡ []) × (length r.completed ≡ n)
  completed_unbounded n room =
      let (r, s) = stalls n room in
      let none_sent : r.emit_offset - start ≡ 0 = let e = s.emitted in omega arith in
      (
        r,
        s.reached,
        (Reach-content file start stop accepts s.reached).0 ∙ ap (bytes_at file start) none_sent,
        s.held,
      )
