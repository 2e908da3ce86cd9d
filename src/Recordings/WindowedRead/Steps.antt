-- ===== src/Recordings/WindowedRead/Steps.antt =====
-- The events that the environment of `windowedRead` may deliver, and the states they reach. The
-- SFTP server is honest: the bytes that it returns for a read are those of the file there, and no
-- more than was asked for. Otherwise it answers reads in any order, in pieces, or with an error.
use reolink_station.Prelude.{
  ℕ, zero, suc, ◌+◌, ◌-◌, ◌≤◌, Bool, true, false, List, [], ◌∷◌, ◌++◌, length, ◌≡◌, refl, ap, arith,
}
use reolink_station.Recordings.WindowedRead.{
  PendingRead, Reader, windowed_read, on_drain, on_dst_close, on_dst_error, on_read_error, on_read,
  on_open_error, on_open,
}

-- `n` bytes of the file from offset `o`
abbrev pub bytes_at : (ℕ → ℕ) → ℕ → ℕ → List ℕ
bytes_at file o zero = []
bytes_at file o (suc n) = file o ∷ bytes_at file (suc o) n

pub length-bytes_at : (file : ℕ → ℕ) (o n : ℕ) → length (bytes_at file o n) ≡ n
length-bytes_at file o zero = refl
length-bytes_at file o (suc n) = ap suc (length-bytes_at file (suc o) n)

pub bytes_at-append :
    (file : ℕ → ℕ) (o n m : ℕ)
    → bytes_at file o n ++ bytes_at file (o + n) m ≡ bytes_at file o (n + m)
bytes_at-append file o zero m = ground arith
bytes_at-append file o (suc n) m =
    let e : o + suc n ≡ suc o + n = omega arith in
    let f : suc n + m ≡ suc (n + m) = omega arith in
    rw (e, f) (ap (λ l. file o ∷ l) (bytes_at-append file (suc o) n m))

module _ (file : ℕ → ℕ) (start stop : ℕ) (accepts : ℕ → Bool) where
  pub data Step (r : Reader) : Reader → Type 0 where
    opened :
        r.opening ≡ true
        → Step r (on_open start stop accepts (record r { opening = false; opens = r.opens + 1 }))
    open_error : r.opening ≡ true → Step r (on_open_error (record r { opening = false }))
    answered :
        (before after : List PendingRead) (x : PendingRead) (n : ℕ)
        → r.reads ≡ before ++ x ∷ after
        → n ≤ x.len - length x.filled
        → Step r (
            on_read start stop accepts x
              (bytes_at file (x.offset + length x.filled) n)
              (record r { reads = before ++ after }))
    read_error :
        (before after : List PendingRead) (x : PendingRead)
        → r.reads ≡ before ++ x ∷ after
        → Step r (on_read_error x (record r { reads = before ++ after }))
    drained : r.settled ≡ false → r.awaiting_drain ≡ true → Step r (on_drain start stop accepts r)
    dst_closed : Step r (on_dst_close r)
    dst_error : Step r (on_dst_error r)

  -- the states that a call of `windowedRead` reaches
  pub data Reach : Reader → Type 0 where
    called : Reach (windowed_read start stop accepts)
    next : {r s : Reader} → Reach r → Step r s → Reach s
