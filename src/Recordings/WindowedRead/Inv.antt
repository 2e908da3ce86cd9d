-- ===== src/Recordings/WindowedRead/Inv.antt =====
-- The invariant of `windowedRead`, and the callbacks that leave the transfer as it is.
use Prim.Native.Nat.{max}
use reolink_station.Prelude.{
  ℕ, ◌+◌, ◌-◌, ◌*◌, ◌≤◌, ◌<◌, min, Bool, true, false, some, List, [], length, ◌≡◌, ◌⊎◌, inl, inr,
  refl, arith, In, leb, leb→le, Bool-cases,
}
use reolink_station.Prelude.JsMap
use reolink_station.Prelude.JsMap.{JsMap, nat_key}
use reolink_station.Recordings.WindowedRead.{
  PendingRead, Reader, Outcome, finish, chunk_size, window, windowed_read, fresh,
}
use reolink_station.Recordings.WindowedRead.Steps.{bytes_at}

module _ (file : ℕ → ℕ) (start stop : ℕ) where
  -- an offset at which a chunk begins
  abbrev pub OnGrid : ℕ → Type 0
  OnGrid o = (k : ℕ) × (o ≡ start + chunk_size * k)

  -- a finished chunk at `o`
  pub record IsChunk (o : ℕ) (b : List ℕ) : Type 0 where
    pub bytes : b ≡ bytes_at file o (length b)
    pub size : length b ≡ min chunk_size (stop - o)
    pub before : o < stop
    pub grid : OnGrid o

  pub record IsPending (x : PendingRead) : Type 0 where
    pub bytes : x.filled ≡ bytes_at file x.offset (length x.filled)
    pub short : length x.filled < x.len
    pub size : x.len ≡ min chunk_size (stop - x.offset)
    pub before : x.offset < stop
    pub grid : OnGrid x.offset

  -- the chunk at `o` has been read, or is being read
  abbrev pub Owed : Reader → ℕ → Type 0
  Owed r o =
      ((b : List ℕ) × (JsMap.get o r.completed ≡ some b))
      ⊎ ((x : PendingRead) × In x r.reads × (x.offset ≡ o))

  pub record Inv (r : Reader) : Type 0 where
    pub emit_from : start ≤ r.emit_offset
    pub emit_to : r.emit_offset ≤ max start stop
    pub next_to : r.next_offset ≤ max start stop
    pub content : r.written ≡ bytes_at file start (r.emit_offset - start)
    pub finished : r.ended ≡ true → stop ≤ r.emit_offset
    pub emit_grid : r.emit_offset < stop → OnGrid r.emit_offset
    pub next_grid : r.next_offset < stop → OnGrid r.next_offset
    pub chunks : (o : ℕ) (b : List ℕ) → JsMap.get o r.completed ≡ some b → IsChunk o b
    pub pending : (x : PendingRead) → In x r.reads → IsPending x
    pub count : r.settled ≡ false → r.inflight ≡ length r.reads
    pub limit : r.inflight ≤ window
    pub unopened :
        r.opening ≡ true → (r.completed ≡ []) × (r.reads ≡ []) × (r.awaiting_drain ≡ false)
    pub cover :
        r.settled ≡ false → (o : ℕ) → OnGrid o → r.emit_offset ≤ o → o < r.next_offset → Owed r o

  begun-Inv :
      (accepts : ℕ → Bool) (e o : Bool)
      → (e ≡ true → stop ≤ start)
      → Inv (record (fresh start stop accepts) { ended = e; opening = o })
  unfolding JsMap.get
  begun-Inv accepts e o h = record {
    emit_from = omega arith;
    emit_to = omega arith;
    next_to = omega arith;
    content = ground arith;
    finished = h;
    emit_grid = λ _. (0, omega arith);
    next_grid = λ _. (0, omega arith);
    chunks = λ o b e. cc;
    pending = λ x m. elim m [ ];
    count = λ _. refl;
    limit = omega arith;
    unopened = λ _. (refl, refl, refl);
    cover = λ _ o g h k. absurd (omega arith);
  }

  pub windowed_read-Inv : (accepts : ℕ → Bool) → Inv (windowed_read start stop accepts)
  unfolding windowed_read
  windowed_read-Inv accepts = elim (Bool-cases (leb stop start)) [
    | inl h ↦ rw h (begun-Inv accepts true false (λ _. leb→le stop start h))
    | inr h ↦ rw h (begun-Inv accepts false true (λ e. cc))
  ]

  -- `finish` keeps the transfer so far, and gives up the chunks that wait.
  pub finish-Inv : (o : Outcome) (r : Reader) → Inv r → Inv (finish o r)
  unfolding finish JsMap.get
  finish-Inv o r v = elim (Bool-cases r.settled) [
    | inl h ↦ simp h v
    | inr h ↦ simp h (record {
      emit_from = v.emit_from;
      emit_to = v.emit_to;
      next_to = v.next_to;
      content = v.content;
      finished = v.finished;
      emit_grid = v.emit_grid;
      next_grid = v.next_grid;
      chunks = λ o b e. cc;
      pending = v.pending;
      count = λ e. cc;
      limit = v.limit;
      unopened = λ h. let (a, b, c) = v.unopened h in (refl, b, c);
      cover = λ e. cc;
    })
  ]
