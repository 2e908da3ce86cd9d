-- ===== src/Tests/RecordingsTests.antt =====
-- The reader, the cache and the ranges at concrete inputs.
use Prim.Native.Nat.{max}
use reolink_station.Prelude.{
  ℕ, ◌+◌, ◌-◌, ◌*◌, ◌≤◌, List, [], ◌∷◌, ◌++◌, Bool, true, false, none, some, ◌≡◌, ◌≢◌, refl, arith,
  codes, length,
}
use reolink_station.Prelude.JsMap
use reolink_station.Recordings.WindowedRead.{
  PendingRead, Reader, windowed_read, on_open, on_read, on_dst_close, window, chunk_size,
}
use reolink_station.Recordings.WindowedRead.Steps.{
  bytes_at, opened, answered, dst_closed, Reach, called, next,
}
use reolink_station.Recordings.WindowedRead.Safety.{Reach-content, Reach-window}
use reolink_station.Recordings.WindowedRead.Handles.{Reach-handles}
use reolink_station.Recordings.WindowedRead.Buffering.{completed_unbounded}
use reolink_station.Recordings.Cache
use reolink_station.Recordings.Cache.History.{Call, look, put, drop, run, expected, get-run}
use reolink_station.Recordings.Range.{whole, unsatisfiable, span, parse_range}
use reolink_station.Recordings.Range.Digits.{range_text}
use reolink_station.Recordings.Range.Spec.{parse_range-wanted, wanted, number_of}

-- the file 0, 1, 2, … and a stream that is never full
abbrev bytes : ℕ → ℕ
bytes n = n

abbrev willing : ℕ → Bool
willing e = true

-- bytes 2 to 4: opened, then answered in two pieces, then closed by the stream
abbrev begun : Reader
begun = windowed_read 2 5 willing

abbrev asked : Reader
asked = on_open 2 5 willing (record begun { opening = false; opens = begun.opens + 1 })

abbrev request : PendingRead
request = record { offset = 2; len = 3; filled = [] }

abbrev partly : Reader
partly = on_read 2 5 willing request (bytes_at bytes 2 1) (record asked { reads = [] })

abbrev rest_request : PendingRead
rest_request = record { offset = 2; len = 3; filled = 2 ∷ [] }

abbrev sent : Reader
sent = on_read 2 5 willing rest_request (bytes_at bytes 3 2) (record partly { reads = [] })

asked-Reach : Reach bytes 2 5 willing asked
unfolding windowed_read
asked-Reach = next called (opened refl)

partly-Reach : Reach bytes 2 5 willing partly
unfolding windowed_read on_open
partly-Reach = next asked-Reach (answered [] [] request 1 refl (omega arith))

sent-Reach : Reach bytes 2 5 willing sent
unfolding windowed_read on_open on_read
sent-Reach = next partly-Reach (answered [] [] rest_request 2 refl (omega arith))

sent_test :
    (sent.written ≡ 2 ∷ 3 ∷ 4 ∷ [])
    × (sent.ended ≡ true)
    × (sent.settled ≡ false)
    × ((on_dst_close sent).closes ≡ 1)
unfolding windowed_read on_open on_read on_dst_close JsMap.get JsMap.set
sent_test = (refl, refl, refl, refl)

sent-settled : sent.settled ≡ false
unfolding windowed_read on_open on_read JsMap.get JsMap.set
sent-settled = refl

Reach-content_example :
    (sent.written ≡ bytes_at bytes 2 (sent.emit_offset - 2))
    × (sent.emit_offset ≤ max 2 5)
    × (sent.ended ≡ true → sent.written ≡ bytes_at bytes 2 (5 - 2))
Reach-content_example = Reach-content bytes 2 5 willing sent-Reach

Reach-window_example : (sent.inflight ≡ length sent.reads) × (length sent.reads ≤ window)
Reach-window_example = Reach-window bytes 2 5 willing sent-Reach sent-settled

Reach-handles_example :
    ((on_dst_close sent).opens ≤ 1)
    × ((on_dst_close sent).settled ≡ false
        → ((on_dst_close sent).closes ≡ 0) × ((on_dst_close sent).outcome ≡ none))
    × ((on_dst_close sent).settled ≡ true
        → ((on_dst_close sent).closes ≡ (on_dst_close sent).opens)
          × ((on_dst_close sent).outcome ≢ none))
Reach-handles_example = Reach-handles bytes 2 5 willing (next sent-Reach dst_closed)

completed_unbounded_example :
    (r : Reader) × Reach bytes 0 (chunk_size * 30) willing r
    × (r.written ≡ [])
    × (length r.completed ≡ 3)
completed_unbounded_example = completed_unbounded bytes 0 (chunk_size * 30) willing 3 (omega arith)

abbrev calls : List (ℕ × Call ℕ)
calls = (70, put "p:b" 2) ∷ (60, drop "q:") ∷ (50, look "p:a") ∷ (40, put "p:a" 1) ∷ []

get-run_example : (Cache.get "p:a" 80 (run 30 calls)).0 ≡ expected 30 "p:a" 80 calls
get-run_example = get-run 30 "p:a" 80 calls (omega arith)

cache_tests :
    (expected 30 "p:a" 70 calls ≡ some 1)
    × (expected 30 "p:a" 80 calls ≡ none)
    × (expected 30 "p:b" 80 ((75, drop "p:") ∷ calls) ≡ none)
unfolding expected
cache_tests = (refl, refl, refl)

range_tests :
    (parse_range (some (codes "bytes=0-99")) 1000 ≡ span 0 99)
    × (parse_range (some (codes " bytes=-10")) 1000 ≡ span 990 999)
    × (parse_range (some (codes "bytes=5-")) 0 ≡ unsatisfiable)
    × (parse_range (some (codes "bytes=a-")) 10 ≡ whole)
unfolding parse_range
range_tests = (refl, refl, refl, refl)

two_of_ten : parse_range (some (codes "bytes=2-4")) 10 ≡ span 2 4
unfolding parse_range
two_of_ten = refl

parse_range-wanted_example :
    parse_range (some (codes " " ++ (range_text (codes "2") (codes "4") ++ []))) 10
    ≡ wanted (number_of (codes "2")) (number_of (codes "4")) 10
unfolding parse_range
parse_range-wanted_example =
    parse_range-wanted (codes " ") [] (codes "2") (codes "4") 10 (refl, tt) tt (refl, tt) (refl, tt)
