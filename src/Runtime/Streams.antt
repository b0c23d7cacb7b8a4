-- ===== src/Runtime/Streams.antt =====
-- src/fp/runtime/event_engine.py: event streams with replay, resubscription and acknowledgement. The
-- fresh `uuid4` of a stream is an argument.
pub mod Push
pub mod Reading
pub mod Following
pub mod Draining
pub mod Keys
pub mod PushConfigs
use Prim.Native.String.{◌++◌ as cat}
use foundation_protocol.Prelude.{
  ℕ, zero, suc, String, Bool, Option, none, some, List, [], ◌∷◌, length, last?, if◌then◌else◌, ◌==◌,
}
use foundation_protocol.Dict
use foundation_protocol.Dict.{Dict}
use foundation_protocol.TextSet.{union}
use foundation_protocol.Protocol.Errors.{
  Result, ok, err, Error, Exec, fp_error, not_found, invalid_argument, pure, gets, modify, raise,
  zoom, ◌>>=◌, ◌>>◌,
}
use foundation_protocol.Protocol.Models.Events.{FpEvent, EventStreamHandle}
use foundation_protocol.Stores.Events
use foundation_protocol.Stores.Events.{EventStore}
use foundation_protocol.Runtime.Backpressure.{
  Controller, configure_stream, on_deliver, on_ack, init_controller,
}
use foundation_protocol.Runtime.Streams.Push.{PushConfig}

-- `_StreamState`
pub record StreamState : Type 0 where
  pub stream_id : String
  pub session_id : String
  pub activity_id : Option String
  pub cursor_event_id : Option String
  pub acked_event_ids : List String

pub record EventEngine : Type 0 where
  pub store : EventStore
  pub stream_states : Dict StreamState
  pub backpressure : Controller
  pub push_configs : Dict PushConfig

abbrev with_controller : EventStore → Result Controller → Result EventEngine
with_controller store (ok c) =
    ok (record { store = store; stream_states = []; backpressure = c; push_configs = [] })
with_controller store (err e) = err e

-- `__init__`
unfoldable pub init_engine : EventStore → ℕ → Result EventEngine
unfolding init_controller
init_engine store window = with_controller store (init_controller window)

-- `activity_id or '*'`
abbrev or_star : Option String → String
or_star none = "*"
or_star (some a) = if a == "" then "*" else a

-- `f"{session_id}:{activity_id or '*'}"`
unfoldable pub stream_key : String → Option String → String
stream_key session_id activity_id = cat session_id (cat ":" (or_star activity_id))

abbrev append_activity : Option String → FpEvent → EventStore → EventStore
append_activity none event store = store
append_activity (some a) event store =
    if a == ""
    then store
    else Events.append store (stream_key event.session_id (some a)) (event ∷ [])

unfoldable pub publish : FpEvent → EventEngine → EventEngine
unfolding stream_key
publish event engine = record engine {
  store =
      append_activity event.activity_id event
        (Events.append engine.store (stream_key event.session_id none) (event ∷ []));
}

unfoldable pub stream :
    String → String → Option String → Option String → Exec EventEngine EventStreamHandle
stream stream_id session_id activity_id from_event_id engine = (
  ok (record {
    stream_id = stream_id;
    session_id = session_id;
    activity_id = activity_id;
    last_read_event_id = from_event_id;
  }),
  record engine {
    stream_states = Dict.put engine.stream_states stream_id (record {
      stream_id = stream_id;
      session_id = session_id;
      activity_id = activity_id;
      cursor_event_id = from_event_id;
      acked_event_ids = [];
    });
    backpressure = (configure_stream stream_id none engine.backpressure).1;
  },
)

-- `_get_state`
abbrev state_or_raise : Option StreamState → Exec EventEngine StreamState
state_or_raise none = raise not_found
state_or_raise (some state) = pure state

unfoldable pub get_state : String → Exec EventEngine StreamState
get_state stream_id engine = state_or_raise (Dict.get engine.stream_states stream_id) engine

-- `state.cursor_event_id = …` on the shared `_StreamState`
unfoldable pub set_cursor : String → StreamState → Option String → EventEngine → EventEngine
set_cursor stream_id state cursor engine = record engine {
  stream_states =
      Dict.put engine.stream_states stream_id (record state { cursor_event_id = cursor });
}

-- The events that a read of the stream is given.
unfoldable pub pending : EventEngine → StreamState → ℕ → List FpEvent
unfolding stream_key
pending engine state limit =
    Events.replay_from engine.store (stream_key state.session_id state.activity_id)
      state.cursor_event_id limit

abbrev last_id : List FpEvent → Option String
last_id events = elim (last? events) [ none ↦ none | some e ↦ some e.event_id ]

-- What `read` does once it has its events: it counts them, and then moves the cursor.
unfoldable pub deliver : String → StreamState → List FpEvent → Exec EventEngine (List FpEvent)
unfolding set_cursor
deliver stream_id state [] = pure []
deliver stream_id state (e ∷ es) = do
  zoom (λ engine. engine.backpressure) (λ engine c. record engine { backpressure = c })
      (on_deliver stream_id (length (e ∷ es)))
  modify (set_cursor stream_id state (last_id (e ∷ es)))
  pure (e ∷ es)

unfoldable pub read : String → ℕ → Exec EventEngine (List FpEvent)
unfolding get_state pending deliver
read stream_id zero = raise invalid_argument
read stream_id (suc n) = do
  state ← get_state stream_id
  events ← gets (λ engine. pending engine state (suc n))
  deliver stream_id state events

unfoldable pub resubscribe : String → String → Exec EventEngine EventStreamHandle
unfolding get_state set_cursor
resubscribe stream_id last_event_id = do
  state ← get_state stream_id
  modify (set_cursor stream_id state (some last_event_id))
  pure (record {
    stream_id = stream_id;
    session_id = state.session_id;
    activity_id = state.activity_id;
    last_read_event_id = some last_event_id;
  })

unfoldable pub ack : String → List String → Exec EventEngine (Unit {0})
unfolding get_state
ack stream_id event_ids = do
  state ← get_state stream_id
  modify (λ engine. record engine {
    stream_states =
        Dict.put engine.stream_states stream_id
          (record state { acked_event_ids = union state.acked_event_ids event_ids });
    backpressure = on_ack stream_id (length event_ids) engine.backpressure;
  })
