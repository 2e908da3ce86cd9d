-- ===== src/Recordings/Response.antt =====
-- `file` of src/recordings/recordings.controller.ts: the answer to a request for a recording, from
-- the size that `stat` reports, and the part of the file that goes into its body.
-- The body's inclusive `end` is held as `stop = end + 1`, as in the reader.
pub mod Body
use reolink_station.Prelude.{
  ℕ, ◌+◌, ◌-◌, String, Bool, Option, none, some, List, if◌then◌else◌, same_text,
}
use reolink_station.Http.{Result, ok, err, bad_request, ◌>>=◌}
use reolink_station.Recordings.Range.{Range, whole, unsatisfiable, span, parse_range}

-- `Content-Range`
pub data ContentRange : Type 0 where
  unknown_range : ℕ → ContentRange
  byte_range : (first last size : ℕ) → ContentRange

-- `RangeSpec` of types.ts
pub record RangeSpec : Type 0 where
  pub start : ℕ
  pub stop : ℕ

-- `body` is the span given to `streamTo`, which a HEAD request and a refusal do without
pub record Answer : Type 0 where
  pub status : ℕ
  pub content_range : Option ContentRange
  pub content_length : Option ℕ
  pub body : Option RangeSpec

abbrev pub unless_head : Bool → RangeSpec → Option RangeSpec
unless_head is_head b = if is_head then none else some b

unfoldable pub answer_range : Bool → ℕ → Range → Answer
answer_range is_head size unsatisfiable = record {
  status = 416;
  content_range = some (unknown_range size);
  content_length = none;
  body = none;
}
answer_range is_head size (span first last) = record {
  status = 206;
  content_range = some (byte_range first last size);
  content_length = some (last - first + 1);
  body = unless_head is_head (record { start = first; stop = last + 1 });
}
answer_range is_head size whole = record {
  status = 200;
  content_range = none;
  content_length = some size;
  body = unless_head is_head (record { start = 0; stop = size });
}

unfoldable pub answer_file : Bool → Option (List ℕ) → ℕ → Answer
unfolding answer_range
answer_file is_head header size = answer_range is_head size (parse_range header size)

-- the handler: `stat` is what the recordings service returns for the path
unfoldable pub file : (String → Result ℕ) → Bool → Option (List ℕ) → Option String → Result Answer
unfolding answer_file
file stat is_head header none = err bad_request
file stat is_head header (some path) =
    if same_text path ""
    then err bad_request
    else stat path >>= λ size. ok (answer_file is_head header size)
