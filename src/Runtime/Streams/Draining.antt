-- ===== src/Runtime/Streams/Draining.antt =====
-- A client that reads a stream and acknowledges what it got, until nothing is left.
use mathlib.Core.Option
use foundation_protocol.Prelude.{
  ℕ, zero, suc, ◌≤◌, ◌<◌, String, ◌≡◌, refl, false, Option, none, some, List, [], ◌∷◌, ◌++◌, arith,
  eq_refl, length, take, drop, ap, ◌∙◌, take-append-drop, length-drop,
}
use foundation_protocol.Dict
use foundation_protocol.Dict.Laws.{get-put}
use foundation_protocol.TextSet.{contains, Distinct}
use foundation_protocol.Protocol.Errors.{ok, err}
use foundation_protocol.Protocol.Models.Events.{FpEvent}
use foundation_protocol.Stores.Events.{from_event, replay_from}
use foundation_protocol.Stores.Events.Replay.{ids}
use foundation_protocol.Runtime.Backpressure.{window_of, outstanding_of, configure_stream}
use foundation_protocol.Runtime.Streams.{
  StreamState, EventEngine, get_state, set_cursor, pending, read, ack, stream,
}
use foundation_protocol.Runtime.Streams.Reading.{read_nothing, read_within}
use foundation_protocol.Runtime.Streams.Following.{
  stream_events, IsAt, settled_after, chunk_fits, next_IsAt,
}

-- `none` means that a call raised or that the fuel ran out.
unfoldable pub drain : ℕ → ℕ → String → EventEngine → Option (List FpEvent)
drain zero limit stream_id engine = none
drain (suc fuel) limit stream_id engine =
    let (got, after) = read stream_id limit engine in
    elim got [
      | err e ↦ none
      | ok events ↦ elim events [
        | [] ↦ some []
        | e ∷ es ↦
            Option.map (λ rest. (e ∷ es) ++ rest)
              (drain fuel limit stream_id (ack stream_id (ids (e ∷ es)) after).1)
      ]
    ]

-- The first `limit` events of what is left are those that a read is given.
pending-IsAt :
    (engine : EventEngine) (stream_id : String) (limit : ℕ) (whole rest : List FpEvent)
    → (at : IsAt engine stream_id limit whole rest)
    → pending engine at.state limit ≡ take limit rest
unfolding pending replay_from
pending-IsAt engine stream_id limit whole rest at =
    ap (λ l. take limit (from_event at.state.cursor_event_id l)) at.events
    ∙ ap (take limit) at.place

drain-IsAt :
    (fuel n : ℕ) (engine : EventEngine) (stream_id : String) (whole rest : List FpEvent)
    → Distinct (ids whole)
    → contains (ids whole) "" ≡ false
    → IsAt engine stream_id (suc n) whole rest
    → length rest < fuel
    → drain fuel (suc n) stream_id engine ≡ some rest
unfolding drain ack get_state set_cursor
drain-IsAt zero n engine stream_id whole rest distinct full at enough =
    absurd (omega (arith, enough))
drain-IsAt (suc fuel) n engine stream_id whole [] distinct full at enough = ground (
  arith,
  read_nothing engine stream_id at.state at.known n
      (pending-IsAt engine stream_id (suc n) whole [] at),
)
drain-IsAt (suc fuel) n engine stream_id whole (y ∷ ys) distinct full at enough =
    let fits =
      chunk_fits engine stream_id (suc n) whole (y ∷ ys) distinct full at y (take n ys) refl in
    let next =
      next_IsAt engine stream_id (suc n) whole (y ∷ ys) distinct full at y (take n ys) refl in
    ground (
      arith,
      read_within engine stream_id at.state at.known n y (take n ys)
          (pending-IsAt engine stream_id (suc n) whole (y ∷ ys) at) fits,
      drain-IsAt fuel n (settled_after engine stream_id at.state y (take n ys)) stream_id whole
          (drop n ys) distinct full next (omega (arith, enough, length-drop n ys)),
      take-append-drop n ys,
    )

-- The state of a stream that is opened without a cursor.
abbrev pub opened_stream : String → String → Option String → StreamState
opened_stream stream_id session_id activity_id = record {
  stream_id = stream_id;
  session_id = session_id;
  activity_id = activity_id;
  cursor_event_id = none;
  acked_event_ids = [];
}

module _ (engine : EventEngine) (stream_id session_id : String) (activity_id : Option String)
    (n : ℕ) where
  stream-IsAt :
      Dict.get engine.backpressure.outstanding stream_id ≡ none
      → Dict.get engine.backpressure.windows stream_id ≡ none
      → suc n ≤ engine.backpressure.default_window
      → IsAt
          (stream stream_id session_id activity_id none engine).1
          stream_id
          (suc n)
          (stream_events engine (opened_stream stream_id session_id activity_id))
          (stream_events engine (opened_stream stream_id session_id activity_id))
  unfolding stream configure_stream outstanding_of window_of Dict.set_default from_event
  stream-IsAt no_count no_window room = record {
    state = (opened_stream stream_id session_id activity_id);
    before = [];
    known = ground (
      arith,
      get-put engine.stream_states stream_id stream_id
          (opened_stream stream_id session_id activity_id),
      eq_refl stream_id,
    );
    events = refl;
    split = refl;
    place = refl;
    settled = ground (
      arith,
      no_count,
      get-put engine.backpressure.outstanding stream_id stream_id 0,
      eq_refl stream_id,
    );
    room = ground (
      arith,
      no_window,
      room,
      get-put engine.backpressure.windows stream_id stream_id engine.backpressure.default_window,
      eq_refl stream_id,
    );
  }

  -- A client that opens a stream under an id that is new to the window counts, reads with a limit
  -- of at least one that is at most the default window, and acknowledges each chunk gets every
  -- event of the stream, once and in order, and its loop ends, if the ids of the events are
  -- distinct and not empty and the fuel is more than their number.
  pub drain-stream :
      Dict.get engine.backpressure.outstanding stream_id ≡ none
      → Dict.get engine.backpressure.windows stream_id ≡ none
      → suc n ≤ engine.backpressure.default_window
      → Distinct (ids (stream_events engine (opened_stream stream_id session_id activity_id)))
      → contains (ids (stream_events engine (opened_stream stream_id session_id activity_id))) ""
        ≡ false
      → (fuel : ℕ)
      → length (stream_events engine (opened_stream stream_id session_id activity_id)) < fuel
      → drain fuel (suc n) stream_id (stream stream_id session_id activity_id none engine).1
        ≡ some (stream_events engine (opened_stream stream_id session_id activity_id))
  drain-stream no_count no_window room distinct full fuel enough =
      drain-IsAt fuel n (stream stream_id session_id activity_id none engine).1 stream_id
        (stream_events engine (opened_stream stream_id session_id activity_id))
        (stream_events engine (opened_stream stream_id session_id activity_id)) distinct full
        (stream-IsAt no_count no_window room) enough
