-- ===== src/Recordings/WindowedRead.antt =====
-- src/recordings/sftp-windowed-read.ts: `windowedRead`, as a state machine. The closure's variables
-- are the fields of `Reader`, and each callback is a function from a state to the next one.
-- The source's inclusive `end` is held as `stop = end + 1`, which is 0 for an empty file.
-- ssh2 and the writable stream are the environment: the calls that wait for an answer stand in
-- `opening` and `reads`, what was sent to the stream and the handles closed are recorded, and
-- `accepts e` is what `dst.write` returns for the write that brings `emitOffset` to `e`.
pub mod Steps
pub mod Inv
pub mod Issue
pub mod Emit
pub mod Answer
pub mod Replies
pub mod Progress
pub mod Liveness
pub mod Handles
pub mod Rounds
pub mod Buffering
pub mod Safety
use reolink_station.Prelude.{
  ℕ, zero, suc, ◌+◌, ◌-◌, ◌*◌, ◌≤◌, ◌<◌, min, Bool, true, false, not, ◌&&◌, ◌||◌, Option, none,
  some, List, [], ◌∷◌, ◌++◌, length, ltb, leb, if◌then◌else◌,
}
use reolink_station.Prelude.JsMap
use reolink_station.Prelude.JsMap.{JsMap, nat_key}

abbrev pub chunk_size : ℕ
chunk_size = 32 * 1024

abbrev pub window : ℕ
window = 24

-- a `sftp.read` whose callback has not been called: its chunk, and the bytes of `buf` filled so far
pub record PendingRead : Type 0 where
  pub offset : ℕ
  pub len : ℕ
  pub filled : List ℕ

pub data Failure : Type 0 where
  open_failed read_failed dst_failed : Failure
  unexpected_eof : ℕ → Failure

pub data Outcome : Type 0 where
  resolved : Outcome
  rejected : Failure → Outcome

pub record Reader : Type 0 where
  pub handle : Bool
  pub next_offset : ℕ
  pub emit_offset : ℕ
  pub inflight : ℕ
  pub settled : Bool
  pub awaiting_drain : Bool
  pub completed : JsMap ℕ (List ℕ)
  -- the environment
  pub opening : Bool
  pub reads : List PendingRead
  pub written : List ℕ
  pub ended : Bool
  pub outcome : Option Outcome
  pub opens : ℕ
  pub closes : ℕ

-- `finish`
unfoldable pub finish : Outcome → Reader → Reader
finish o r = if r.settled then r else record r {
  settled = true;
  completed = [];
  outcome = some o;
  closes = if r.handle then r.closes + 1 else r.closes;
}

-- one round of the loop of `emitReady`, up to its tests
unfoldable pub emit : List ℕ → Reader → Reader
emit buf r = record r {
  completed = JsMap.remove r.emit_offset r.completed;
  emit_offset = r.emit_offset + length buf;
  written = r.written ++ buf;
}

unfoldable pub on_dst_close : Reader → Reader
unfolding finish
on_dst_close r = finish resolved r

unfoldable pub on_dst_error : Reader → Reader
unfolding finish
on_dst_error r = finish (rejected dst_failed) r

-- the callback of `sftp.read` for the pending read `x`, with an error
unfoldable pub on_read_error : PendingRead → Reader → Reader
unfolding finish
on_read_error x r = if r.settled then r else finish (rejected read_failed) r

unfoldable pub store_chunk : PendingRead → List ℕ → Reader → Reader
store_chunk x bytes r = record r {
  inflight = r.inflight - 1;
  completed = JsMap.set x.offset (x.filled ++ bytes) r.completed;
}

unfoldable pub continue_read : PendingRead → List ℕ → Reader → Reader
continue_read x bytes r = record r {
  reads = r.reads ++ record x { filled = x.filled ++ bytes } ∷ [];
}

unfoldable pub on_open_error : Reader → Reader
unfolding finish
on_open_error r = finish (rejected open_failed) r

module _ (start stop : ℕ) (accepts : ℕ → Bool) where
  -- the test of the loop of `pump`
  unfoldable pub may_issue : Reader → Bool
  may_issue r =
      not r.settled && not r.awaiting_drain && ltb r.inflight window && ltb r.next_offset stop

  -- its body
  unfoldable pub issue : Reader → Reader
  issue r =
      let len = min chunk_size (stop - r.next_offset) in
      record r {
        inflight = r.inflight + 1;
        reads = r.reads ++ record { offset = r.next_offset; len = len; filled = [] } ∷ [];
        next_offset = r.next_offset + len;
      }

  unfoldable pub pump_loop : ℕ → Reader → Reader
  unfolding may_issue issue
  pump_loop zero r = r
  pump_loop (suc fuel) r = elim (may_issue r) [ true ↦ pump_loop fuel (issue r) | false ↦ r ]

  -- Each round adds one to `inflight`, so that `window` rounds are enough.
  unfoldable pub pump : Reader → Reader
  unfolding pump_loop
  pump r = pump_loop window r

  unfoldable pub emit_loop : ℕ → Reader → Reader
  unfolding emit
  emit_loop zero r = pump r
  emit_loop (suc fuel) r = elim (JsMap.get r.emit_offset r.completed) [
    | none ↦ pump r
    | some buf ↦
        let r' = emit buf r in
        let next = emit_loop fuel r' in
        if leb stop r'.emit_offset
        then record r' { ended = true }
        else if accepts r'.emit_offset
        then next
        else record r' { awaiting_drain = true }
  ]

  -- Each round takes one chunk out of `completed`.
  unfoldable pub emit_ready : Reader → Reader
  unfolding emit_loop
  emit_ready r = if r.settled || r.awaiting_drain then r else emit_loop (length r.completed) r

  unfoldable pub on_drain : Reader → Reader
  unfolding emit_ready
  on_drain r = emit_ready (record r { awaiting_drain = false })

  -- the callback of `sftp.read` for the pending read `x`, with `bytesRead` bytes
  unfoldable pub on_read : PendingRead → List ℕ → Reader → Reader
  unfolding finish emit_ready store_chunk continue_read
  on_read x bytes r =
      if r.settled
      then r
      else if leb (length bytes) 0
      then finish (rejected (unexpected_eof (x.offset + length x.filled))) r
      else if ltb (length x.filled + length bytes) x.len
      then continue_read x bytes r
      else emit_ready (store_chunk x bytes r)

  unfoldable pub on_open : Reader → Reader
  unfolding pump
  on_open r =
      if r.settled then record r { closes = r.closes + 1 } else pump (record r { handle = true })

  -- the body of the promise
  abbrev pub fresh : Reader
  fresh = record {
    handle = false;
    next_offset = start;
    emit_offset = start;
    inflight = 0;
    settled = false;
    awaiting_drain = false;
    completed = [];
    opening = false;
    reads = [];
    written = [];
    ended = false;
    outcome = none;
    opens = 0;
    closes = 0;
  }

  unfoldable pub windowed_read : Reader
  windowed_read =
      if leb stop start then record fresh { ended = true } else record fresh { opening = true }
