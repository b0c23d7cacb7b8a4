-- ===== src/Runtime/Streams/Following.antt =====
-- One step of a client that follows a stream: a read, and the acknowledgement of what it gave.
use mathlib.Core.List.{append_assoc}
use foundation_protocol.Prelude.{
  ℕ, suc, ◌+◌, ◌≤◌, String, ◌≡◌, refl, false, some, List, [], ◌∷◌, ◌++◌, arith, eq_refl, length,
  take, drop, ap, ◌∙◌, sym, subst, take-append-drop, length-take-le,
}
use foundation_protocol.Dict
use foundation_protocol.Dict.Laws.{get-put}
use foundation_protocol.TextSet.{contains, Distinct, union}
use foundation_protocol.Protocol.Models.Events.{FpEvent}
use foundation_protocol.Stores.Events.{events_of, from_event}
use foundation_protocol.Stores.Events.Replay.{ids, from_event-middle}
use foundation_protocol.Runtime.Backpressure.{window_of, outstanding_of, on_deliver, on_ack}
use foundation_protocol.Runtime.Backpressure.Bounds.{outstanding-on_deliver, outstanding-on_ack}
use foundation_protocol.Runtime.Streams.{
  StreamState, EventEngine, stream_key, get_state, set_cursor, last_id, ack,
}

-- The events of a stream.
abbrev pub stream_events : EventEngine → StreamState → List FpEvent
stream_events engine state = events_of engine.store (stream_key state.session_id state.activity_id)

-- A client that is at `rest` in the stream and has acknowledged all that it was given.
pub record IsAt (engine : EventEngine) (stream_id : String) (limit : ℕ) (whole rest : List FpEvent)
    : Type 0 where
  pub state : StreamState
  pub before : List FpEvent
  pub known : Dict.get engine.stream_states stream_id ≡ some state
  pub events : stream_events engine state ≡ whole
  pub split : whole ≡ before ++ rest
  pub place : from_event state.cursor_event_id whole ≡ rest
  pub settled : outstanding_of engine.backpressure stream_id ≡ 0
  pub room : limit ≤ window_of engine.backpressure stream_id

-- The last event of a chunk.
last_of :
    (e : FpEvent) (es : List FpEvent)
    → (init : List FpEvent) × (x : FpEvent) × (e ∷ es ≡ init ++ x ∷ [])
      × (last_id (e ∷ es) ≡ some x.event_id)
last_of e [] = ([], e, refl, refl)
last_of e (f ∷ es) =
    let (init, x, shape, last) = last_of f es in (e ∷ init, x, ap (◌∷◌ e) shape, last)

-- The engine after a read of `e ∷ es` and the acknowledgement of it.
abbrev pub settled_after : EventEngine → String → StreamState → FpEvent → List FpEvent → EventEngine
settled_after engine stream_id state e es =
    (ack stream_id (ids (e ∷ es)) (
      set_cursor stream_id state (last_id (e ∷ es)) (record engine {
        backpressure = (on_deliver stream_id (length (e ∷ es)) engine.backpressure).1;
      }))).1

length-ids : (es : List FpEvent) → length (ids es) ≡ length es
length-ids [] = refl
length-ids (e ∷ es) = ap suc (length-ids es)

module _ (engine : EventEngine) (stream_id : String) (limit : ℕ) (whole rest : List FpEvent)
    (distinct : Distinct (ids whole)) (full : contains (ids whole) "" ≡ false)
    (at : IsAt engine stream_id limit whole rest) (e : FpEvent) (es : List FpEvent)
    (chunk : take limit rest ≡ e ∷ es) where
  abbrev left_over : List FpEvent
  left_over = drop limit rest

  rest_split : rest ≡ (e ∷ es) ++ left_over
  rest_split = sym (take-append-drop limit rest) ∙ ap (λ l. l ++ left_over) chunk

  next_split : whole ≡ (at.before ++ e ∷ es) ++ left_over
  next_split =
      at.split ∙ ap (◌++◌ at.before) rest_split ∙ sym (append_assoc at.before (e ∷ es) left_over)

  next_place : from_event (last_id (e ∷ es)) whole ≡ left_over
  next_place =
      let (init, x, shape, last) = last_of e es in
      let cut : whole ≡ (at.before ++ init) ++ x ∷ left_over =
        next_split
        ∙ ap (λ l. (at.before ++ l) ++ left_over) shape
        ∙ ap (λ l. l ++ left_over) (sym (append_assoc at.before init (x ∷ [])))
        ∙ append_assoc (at.before ++ init) (x ∷ []) left_over in
      ap (λ c. from_event c whole) last
      ∙ ap (from_event (some x.event_id)) cut
      ∙ from_event-middle (at.before ++ init) x left_over
          (subst (λ l. Distinct (ids l)) cut distinct)
          (subst (λ l. contains (ids l) "" ≡ false) cut full)

  pub chunk_fits :
      outstanding_of engine.backpressure stream_id + length (e ∷ es)
      ≤ window_of engine.backpressure stream_id
  chunk_fits = omega (arith, at.settled, at.room, ap length chunk, length-take-le limit rest)

  next_settled :
      outstanding_of (settled_after engine stream_id at.state e es).backpressure stream_id ≡ 0
  unfolding ack get_state set_cursor
  next_settled = ground (
    arith,
    get-put engine.stream_states stream_id stream_id
        (record at.state { cursor_event_id = last_id (e ∷ es) }),
    eq_refl stream_id,
    length-ids (e ∷ es),
    at.settled,
    chunk_fits,
    outstanding-on_ack (on_deliver stream_id (length (e ∷ es)) engine.backpressure).1 stream_id
        stream_id (length (ids (e ∷ es))),
    outstanding-on_deliver engine.backpressure stream_id stream_id (length (e ∷ es)),
  )

  next_room :
      limit ≤ window_of (settled_after engine stream_id at.state e es).backpressure stream_id
  unfolding ack get_state set_cursor window_of on_deliver on_ack
  next_room = ground (
    arith,
    get-put engine.stream_states stream_id stream_id
        (record at.state { cursor_event_id = last_id (e ∷ es) }),
    eq_refl stream_id,
    at.room,
  )

  abbrev next_state : StreamState
  next_state = record at.state {
    cursor_event_id = last_id (e ∷ es);
    acked_event_ids = union at.state.acked_event_ids (ids (e ∷ es));
  }

  next_known :
      Dict.get (settled_after engine stream_id at.state e es).stream_states stream_id
      ≡ some next_state
  unfolding ack get_state set_cursor
  next_known = ground (
    arith,
    get-put engine.stream_states stream_id stream_id
        (record at.state { cursor_event_id = last_id (e ∷ es) }),
    get-put
        (Dict.put engine.stream_states stream_id
          (record at.state { cursor_event_id = last_id (e ∷ es) }))
        stream_id stream_id next_state,
    eq_refl stream_id,
  )

  next_events : stream_events (settled_after engine stream_id at.state e es) next_state ≡ whole
  unfolding ack get_state set_cursor
  next_events = ground (
    arith,
    get-put engine.stream_states stream_id stream_id
        (record at.state { cursor_event_id = last_id (e ∷ es) }),
    eq_refl stream_id,
    at.events,
  )

  pub next_IsAt :
      IsAt (settled_after engine stream_id at.state e es) stream_id limit whole left_over
  next_IsAt = record {
    state = next_state;
    before = at.before ++ e ∷ es;
    known = next_known;
    events = next_events;
    split = next_split;
    place = next_place;
    settled = next_settled;
    room = next_room;
  }
