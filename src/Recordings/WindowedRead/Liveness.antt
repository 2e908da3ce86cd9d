-- ===== src/Recordings/WindowedRead/Liveness.antt =====
-- The transfer never stalls: while it is neither settled nor ended, an answer is outstanding.
use reolink_station.Prelude.JsMap
use reolink_station.Prelude.JsMap.{nat_key}
use reolink_station.Recordings.WindowedRead.Inv.{Inv}
