-- ===== src/Recordings/WindowedRead/Replies.antt =====
-- The callback of a read keeps the invariant.
use reolink_station.Prelude.{
  ℕ, ◌+◌, ◌-◌, ◌≤◌, ◌<◌, Bool, true, false, List, [], ◌∷◌, ◌++◌, length, length-append, ◌≡◌, ◌≢◌,
  inl, inr, refl, ap, sym, ◌∙◌, arith, In, leb, ltb, Bool-cases, In-append_left, In-append_right,
  of_In-append, length-middle, In-middle, In-around, of_In-middle, ◌==◌, if_true, if_false,
}
use reolink_station.Prelude.JsMap
use reolink_station.Prelude.JsMap.{nat_key}
use reolink_station.Recordings.WindowedRead.{
  PendingRead, Reader, Outcome, rejected, unexpected_eof, finish, store_chunk, continue_read,
  on_read,
}
use reolink_station.Recordings.WindowedRead.Steps.{bytes_at, bytes_at-append, length-bytes_at}
use reolink_station.Recordings.WindowedRead.Inv.{IsChunk, IsPending, Inv}
use reolink_station.Recordings.WindowedRead.Answer.{
  on_read-settled, on_read-eof, on_read-short, on_read-full,
}
use reolink_station.Recordings.WindowedRead.Emit.{emit_ready-Inv}

module _ (file : ℕ → ℕ) (start stop : ℕ) (r : Reader) (before after : List PendingRead)
    (x : PendingRead) (asked : r.reads ≡ before ++ x ∷ after) (v : Inv file start stop r) where
  abbrev pub fired : Reader
  fired = record r { reads = before ++ after }

  still : (y : PendingRead) → In y (before ++ after) → In y r.reads
  still y m = rw asked (In-around x before after y m)

  here : IsPending file start stop x
  here = v.pending x (rw asked (In-middle x before after))

  append_ne_nil : (bs : List PendingRead) → bs ++ x ∷ after ≢ []
  append_ne_nil [] = cc
  append_ne_nil (b ∷ bs) = cc

  -- reads are asked for only once the file is open
  pub open_done : r.opening ≡ false
  open_done = elim (Bool-cases r.opening) [
    | inr e ↦ e
    | inl e ↦ absurd (append_ne_nil before (sym asked ∙ (v.unopened e).1))
  ]

  -- once settled, an answer changes nothing
  pub fired-Inv : r.settled ≡ true → Inv file start stop fired
  fired-Inv h = record {
    emit_from = v.emit_from;
    emit_to = v.emit_to;
    next_to = v.next_to;
    content = v.content;
    finished = v.finished;
    emit_grid = v.emit_grid;
    next_grid = v.next_grid;
    chunks = v.chunks;
    pending = λ y m. v.pending y (still y m);
    count = λ u. cc (h, u);
    limit = v.limit;
    unopened = λ o. cc (o, open_done);
    cover = λ u. cc (h, u);
  }

  module _ (n : ℕ) (some_bytes : 0 < n) (fits : n ≤ x.len - length x.filled) where
    abbrev bytes : List ℕ
    bytes = bytes_at file (x.offset + length x.filled) n

    filled_more : x.filled ++ bytes ≡ bytes_at file x.offset (length (x.filled ++ bytes))
    filled_more =
        let len = length-append {0} x.filled bytes in
        let n_len = length-bytes_at file (x.offset + length x.filled) n in
        let total : length (x.filled ++ bytes) ≡ length x.filled + n = omega arith in
        let joined = bytes_at-append file x.offset (length x.filled) n in
        cc (here.bytes, total, joined)

    length-filled_more : length (x.filled ++ bytes) ≡ length x.filled + n
    length-filled_more = omega (
      arith,
      length-append {0} x.filled bytes,
      length-bytes_at file (x.offset + length x.filled) n,
    )

    -- A short read goes on with the rest of its chunk.
    continue_read-Inv :
        length x.filled + n < x.len → Inv file start stop (continue_read x bytes fired)
    unfolding continue_read
    continue_read-Inv short =
        let x' = record x { filled = x.filled ++ bytes } in
        record {
          emit_from = v.emit_from;
          emit_to = v.emit_to;
          next_to = v.next_to;
          content = v.content;
          finished = v.finished;
          emit_grid = v.emit_grid;
          next_grid = v.next_grid;
          chunks = v.chunks;
          pending = λ y m. elim (of_In-append y (before ++ after) (x' ∷ []) m) [
            | inl old ↦ v.pending y (still y old)
            | inr (inl new) ↦ rw new (record {
              bytes = filled_more;
              short = omega (arith, length-filled_more);
              size = here.size;
              before = here.before;
              grid = here.grid;
            })
            | inr (inr nothing) ↦ absurd nothing
          ];
          count = λ u.
              let e : length r.reads ≡ length (before ++ x ∷ after) = ap length asked in
              omega (
                arith,
                v.count u,
                length-middle x before after,
                length-append {0} (before ++ after) (x' ∷ []),
              );
          limit = v.limit;
          unopened = λ h. cc (h, open_done);
          cover = λ u o g a b. elim (v.cover u o g a b) [
            | inl done ↦ inl done
            | inr (y, m, same) ↦ elim (of_In-middle x before after y (rw asked at m)) [
              | inl e ↦ inr (
                x',
                In-append_right x' (before ++ after) (x' ∷ []) (inl refl),
                ap (λ (z : PendingRead). z.offset) (sym e) ∙ same,
              )
              | inr old ↦ inr (y, In-append_left y (before ++ after) (x' ∷ []) old, same)
            ]
          ];
        }

    -- A filled chunk waits for its turn.
    store_chunk-Inv : x.len ≤ length x.filled + n → Inv file start stop (store_chunk x bytes fired)
    unfolding store_chunk
    store_chunk-Inv full =
        let b = x.filled ++ bytes in
        let size : length b ≡ x.len = omega (arith, length-filled_more, here.short) in
        let whole : IsChunk file start stop x.offset b = record {
          bytes = filled_more;
          size = size ∙ here.size;
          before = here.before;
          grid = here.grid;
        } in
        let law = λ (o : ℕ). JsMap.get-set x.offset o b r.completed in
        record {
          emit_from = v.emit_from;
          emit_to = v.emit_to;
          next_to = v.next_to;
          content = v.content;
          finished = v.finished;
          emit_grid = v.emit_grid;
          next_grid = v.next_grid;
          chunks = λ o d h. elim (Bool-cases (x.offset == o)) [
            | inl same ↦
                let at_o : x.offset ≡ o = ground arith in
                let is_b : d ≡ b = ground (arith, law o) in rw (← at_o, is_b) whole
            | inr other ↦ v.chunks o d (ground (arith, law o))
          ];
          pending = λ y m. v.pending y (still y m);
          count = λ u.
              let e : length r.reads ≡ length (before ++ x ∷ after) = ap length asked in
              omega (arith, v.count u, length-middle x before after);
          limit = omega (arith, v.limit);
          unopened = λ h. cc (h, open_done);
          cover = λ u o g a l. elim (v.cover u o g a l) [
            | inl (d, there) ↦ elim (Bool-cases (x.offset == o)) [
              | inl same ↦ inl (b, ground (arith, law o))
              | inr other ↦ inl (d, ground (arith, law o))
            ]
            | inr (y, m, same) ↦ elim (of_In-middle x before after y (rw asked at m)) [
              | inl e ↦
                  let at_o : x.offset ≡ o = ap (λ (z : PendingRead). z.offset) (sym e) ∙ same in
                  inl (b, ground (arith, law o))
              | inr old ↦ inr (y, old, same)
            ]
          ];
        }

  -- a failure drops the answer together with the transfer
  pub gave_up-Inv : (o : Outcome) → Inv file start stop (finish o fired)
  unfolding finish JsMap.get
  gave_up-Inv o = elim (Bool-cases r.settled) [
    | inl done ↦ rw (if_true _ _ _ done) (fired-Inv done)
    | inr live ↦ rw (if_false _ _ _ live) (record {
      emit_from = v.emit_from;
      emit_to = v.emit_to;
      next_to = v.next_to;
      content = v.content;
      finished = v.finished;
      emit_grid = v.emit_grid;
      next_grid = v.next_grid;
      chunks = λ o b e. cc;
      pending = λ y m. v.pending y (still y m);
      count = λ e. cc;
      limit = v.limit;
      unopened = λ h. cc (h, open_done);
      cover = λ e. cc;
    })
  ]

  -- the callback of a read, with the bytes that the file has there
  pub on_read-Inv :
      (accepts : ℕ → Bool) (n : ℕ)
      → n ≤ x.len - length x.filled
      → Inv file start stop
          (on_read start stop accepts x (bytes_at file (x.offset + length x.filled) n) fired)
  on_read-Inv accepts n fits =
      let b = bytes_at file (x.offset + length x.filled) n in
      let len = length-bytes_at file (x.offset + length x.filled) n in
      elim (Bool-cases r.settled) [
        | inl done ↦ rw (on_read-settled start stop accepts x b fired done) (fired-Inv done)
        | inr live ↦ elim (Bool-cases (leb (length b) 0)) [
          | inl nothing ↦
              rw (on_read-eof start stop accepts x b fired live nothing)
                (gave_up-Inv (rejected (unexpected_eof (x.offset + length x.filled))))
          | inr more ↦
              let some_bytes : 0 < n = ground arith in
              elim (Bool-cases (ltb (length x.filled + length b) x.len)) [
                | inl short ↦
                    rw (on_read-short start stop accepts x b fired live more short)
                      (continue_read-Inv n some_bytes fits (ground arith))
                | inr full ↦ rw (on_read-full start stop accepts x b fired live more full) (
                    emit_ready-Inv file start stop accepts (store_chunk x b fired)
                      (unfold store_chunk in open_done)
                      (store_chunk-Inv n some_bytes fits (ground arith)))
              ]
        ]
      ]
