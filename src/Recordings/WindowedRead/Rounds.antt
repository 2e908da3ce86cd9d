-- ===== src/Recordings/WindowedRead/Rounds.antt =====
-- src/recordings/sftp-windowed-read.ts: `pump` round by round, while every read it asks for is of a
-- whole chunk.
use mathlib.Core.List.{append-nil, append_assoc}
use reolink_station.Prelude.{
  ℕ, zero, suc, ◌+◌, ◌-◌, ◌*◌, ◌≤◌, ◌<◌, min, Bool, true, false, List, [], ◌∷◌, ◌++◌, ◌≡◌, refl, ap,
  sym, ◌∙◌, arith,
}
use reolink_station.Prelude.JsMap.{nat_key}
use reolink_station.Recordings.WindowedRead.{
  PendingRead, Reader, chunk_size, window, may_issue, issue, pump_loop,
}

module _ (start stop : ℕ) (accepts : ℕ → Bool) where
  abbrev pub pos : ℕ → ℕ
  pos k = start + chunk_size * k

  abbrev pub whole_read : ℕ → PendingRead
  whole_read k = record { offset = pos k; len = chunk_size; filled = [] }

  -- the reads of `m` whole chunks from the `k`-th on
  abbrev pub asked : ℕ → ℕ → List PendingRead
  asked k zero = []
  asked k (suc m) = whole_read k ∷ asked (suc k) m

  pub asked_snoc : (k m : ℕ) → asked k m ++ whole_read (k + m) ∷ [] ≡ asked k (suc m)
  asked_snoc k zero = let e : k + zero ≡ k = omega arith in rw e
  asked_snoc k (suc m) =
      let e : k + suc m ≡ suc k + m = omega arith in
      rw e (ap (λ l. whole_read k ∷ l) (asked_snoc (suc k) m))

  abbrev pub moved : Reader → ℕ → List PendingRead → ℕ → Reader
  moved r i q n = record r { inflight = i; reads = q; next_offset = n }

  pub issue_whole :
      (r : Reader) (k : ℕ)
      → r.next_offset ≡ pos k
      → pos (suc k) ≤ stop
      → issue start stop accepts r
        ≡ moved r (r.inflight + 1) (r.reads ++ whole_read k ∷ []) (pos (suc k))
  unfolding issue
  issue_whole r k e room =
      let size : min chunk_size (stop - r.next_offset) ≡ chunk_size = omega arith in
      let after : r.next_offset + min chunk_size (stop - r.next_offset) ≡ pos (suc k) =
        omega arith in
      λ i. record r {
        next_offset = after i;
        inflight = r.inflight + 1;
        reads = r.reads ++ record { offset = e i; len = size i; filled = [] } ∷ [];
      }

  abbrev pub Asking : Reader → Type 0
  Asking r = (r.settled ≡ false) × (r.awaiting_drain ≡ false)

  pub may_issue-Asking :
      (r : Reader)
      → Asking r
      → r.inflight < window
      → r.next_offset < stop
      → may_issue start stop accepts r ≡ true
  unfolding may_issue
  may_issue-Asking r a b c = ground arith

  pub may_issue_full : (r : Reader) → window ≤ r.inflight → may_issue start stop accepts r ≡ false
  unfolding may_issue
  may_issue_full r h = ground arith

  pub pump_loop_more :
      (fuel : ℕ) (r : Reader)
      → may_issue start stop accepts r ≡ true
      → pump_loop start stop accepts (suc fuel) r
        ≡ pump_loop start stop accepts fuel (issue start stop accepts r)
  unfolding pump_loop
  pump_loop_more fuel r h = rw (h, pump_loop)

  pub pump_loop_done :
      (fuel : ℕ) (r : Reader)
      → may_issue start stop accepts r ≡ false
      → pump_loop start stop accepts fuel r ≡ r
  unfolding pump_loop
  pump_loop_done zero r h = refl
  pump_loop_done (suc fuel) r h = rw (h, pump_loop)

  pub moved_join :
      (r : Reader) (i j n : ℕ) (p q : List PendingRead)
      → i ≡ j
      → p ≡ q
      → moved r i p n ≡ moved r j q n
  moved_join r i j n p q a b = λ t. record r { inflight = a t; reads = b t; next_offset = n }

  -- `m` rounds of the loop, with room for `m` whole chunks
  pub pump_loop_whole :
      (m : ℕ) (r : Reader) (k : ℕ)
      → Asking r
      → r.inflight + m ≤ window
      → r.next_offset ≡ pos k
      → pos (k + m) ≤ stop
      → pump_loop start stop accepts m r
        ≡ moved r (r.inflight + m) (r.reads ++ asked k m) (pos (k + m))
  unfolding pump_loop
  pump_loop_whole zero r k a b e room =
      let here : r.next_offset ≡ pos (k + zero) = omega arith in
      let count : r.inflight ≡ r.inflight + zero = omega arith in
      λ i. record r { inflight = count i; reads = sym (append-nil r.reads) i; next_offset = here i }
  pump_loop_whole (suc m) r k a b e room =
      let r' = moved r (r.inflight + 1) (r.reads ++ whole_read k ∷ []) (pos (suc k)) in
      let at_end : suc k + m ≡ k + suc m = omega arith in
      let count : r.inflight + 1 + m ≡ r.inflight + suc m = omega arith in
      pump_loop_more m r (may_issue-Asking r a (omega arith) (omega arith))
      ∙ ap (pump_loop start stop accepts m) (issue_whole r k e (omega arith))
      ∙ pump_loop_whole m r' (suc k) a (omega arith) refl (omega arith)
      ∙ ap
          (λ t.
            moved r (r.inflight + 1 + m) ((r.reads ++ whole_read k ∷ []) ++ asked (suc k) m)
              (pos t))
          at_end
      ∙ moved_join r _ _ _ _ _ count (append_assoc r.reads (whole_read k ∷ []) (asked (suc k) m))
