-- ===== src/Recordings/Response/Body.antt =====
-- The body of an answer against its headers, through the reader that sends it.
use reolink_station.Recordings.Range.{Range}
