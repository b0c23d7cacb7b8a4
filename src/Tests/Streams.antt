-- ===== src/Tests/Streams.antt =====
-- Streams over the in-memory event store, and their windows.
use Prim.Native.String.{◌++◌ as cat}
use foundation_protocol.Prelude.{◌≡◌, refl, none, some, [], ◌∷◌, ◌++◌, arith}
use foundation_protocol.Dict
use foundation_protocol.TextSet
use foundation_protocol.Protocol.Errors.{err, fp_error, backpressure}
use foundation_protocol.Stores.Events
use foundation_protocol.Stores.Events.{events_of}
use foundation_protocol.Runtime.Backpressure.{Controller, window_of, outstanding_of, on_deliver}
use foundation_protocol.Runtime.Backpressure.Bounds.{IsWithin, on_deliver-IsWithin}
use foundation_protocol.Runtime.Streams.{
  StreamState, EventEngine, stream_key, publish, stream, read, pending,
}
use foundation_protocol.Runtime.Streams.Keys.{
  session_copies, activity_copies, events_of-publish, stream_key-collides,
}
use foundation_protocol.Runtime.Streams.Following.{stream_events}
use foundation_protocol.Runtime.Streams.Draining.{drain, opened_stream, drain-stream}
use foundation_protocol.Runtime.Streams.Reading.{read_over}
use foundation_protocol.Tests.Samples.{event}

abbrev window_two : Controller
window_two = record { default_window = 2; outstanding = []; windows = [] }

abbrev engine : EventEngine
engine = record {
  store = record { streams = ("s3:a1", event "e1" ∷ event "e2" ∷ event "e3" ∷ []) ∷ [] };
  stream_states = [];
  backpressure = window_two;
  push_configs = [];
}

drain-stream_example :
    drain 4 2 "stream-1" (stream "stream-1" "s3" (some "a1") none engine).1
    ≡ some (stream_events engine (opened_stream "stream-1" "s3" (some "a1")))
unfolding stream_key events_of Dict.get TextSet.contains
drain-stream_example =
    drain-stream engine "stream-1" "s3" (some "a1") 1 refl refl (omega arith)
      (refl, (refl, (refl, tt))) refl 4 (omega arith)

events_of-publish_example :
    events_of (publish (event "e4") engine).store "s3:a1"
    ≡ (events_of engine.store "s3:a1" ++ session_copies (event "e4") "s3:a1")
      ++ activity_copies (some "a1") (event "e4") "s3:a1"
events_of-publish_example = events_of-publish (event "e4") engine "s3:a1"

stream_key-collides_example :
    stream_key "a" (some (cat "b" (cat ":" "c"))) ≡ stream_key (cat "a" (cat ":" "b")) (some "c")
stream_key-collides_example = stream_key-collides "a" "b" "c" refl refl

abbrev state_one : StreamState
state_one = record {
  stream_id = "stream-1";
  session_id = "s3";
  activity_id = some "a1";
  cursor_event_id = none;
  acked_event_ids = [];
}

abbrev engine_over : EventEngine
engine_over = record engine { stream_states = ("stream-1", state_one) ∷ [] }

three_pending : pending engine_over state_one 3 ≡ event "e1" ∷ event "e2" ∷ event "e3" ∷ []
unfolding pending stream_key Events.replay_from Dict.get
three_pending = refl

read_over_example :
    ((read "stream-1" 3 engine_over).0 ≡ err (fp_error backpressure))
    × ((read "stream-1" 3 engine_over).1.stream_states ≡ engine_over.stream_states)
unfolding window_of outstanding_of Dict.get
read_over_example =
    read_over engine_over "stream-1" state_one refl 2 (event "e1") (event "e2" ∷ event "e3" ∷ [])
      three_pending (omega arith)

window_two-IsWithin : IsWithin window_two
unfolding window_of outstanding_of Dict.get
window_two-IsWithin stream_id = omega arith

on_deliver-IsWithin_example : IsWithin (on_deliver "stream-1" 3 window_two).1
on_deliver-IsWithin_example = on_deliver-IsWithin window_two "stream-1" 3 window_two-IsWithin
