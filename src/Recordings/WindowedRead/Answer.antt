-- ===== src/Recordings/WindowedRead/Answer.antt =====
-- The branches of the callback of `sftp.read`.
use reolink_station.Prelude.{
  ℕ, ◌+◌, Bool, true, false, List, length, ◌≡◌, ◌∙◌, leb, ltb, if_true, if_false,
}
use reolink_station.Recordings.WindowedRead.{
  PendingRead, Reader, rejected, unexpected_eof, finish, store_chunk, continue_read, on_read,
  emit_ready,
}

module _ (start stop : ℕ) (accepts : ℕ → Bool) (x : PendingRead) (b : List ℕ) (r : Reader) where
  pub on_read-settled : r.settled ≡ true → on_read start stop accepts x b r ≡ r
  unfolding on_read
  on_read-settled h = if_true _ _ _ h

  module _ (live : r.settled ≡ false) where
    pub on_read-eof :
        leb (length b) 0 ≡ true
        → on_read start stop accepts x b r
          ≡ finish (rejected (unexpected_eof (x.offset + length x.filled))) r
    unfolding on_read
    on_read-eof h = if_false _ _ _ live ∙ if_true _ _ _ h

    module _ (more : leb (length b) 0 ≡ false) where
      pub on_read-short :
          ltb (length x.filled + length b) x.len ≡ true
          → on_read start stop accepts x b r ≡ continue_read x b r
      unfolding on_read
      on_read-short h = if_false _ _ _ live ∙ if_false _ _ _ more ∙ if_true _ _ _ h

      pub on_read-full :
          ltb (length x.filled + length b) x.len ≡ false
          → on_read start stop accepts x b r ≡ emit_ready start stop accepts (store_chunk x b r)
      unfolding on_read
      on_read-full h = if_false _ _ _ live ∙ if_false _ _ _ more ∙ if_false _ _ _ h
