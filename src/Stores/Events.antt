-- ===== src/Stores/Events.antt =====
-- `InMemoryEventStore` of src/fp/stores/memory.py: an append-only list of events under each stream key.
pub mod Replay
use foundation_protocol.Prelude.{
  ℕ, String, Bool, Option, none, some, List, [], ◌∷◌, ◌++◌, take, ◌==◌, if◌then◌else◌,
}
use foundation_protocol.Dict
use foundation_protocol.Dict.{Dict}
use foundation_protocol.Protocol.Models.Events.{FpEvent}

pub record EventStore : Type 0 where
  pub streams : Dict (List FpEvent)

abbrev pub empty : EventStore
empty = record { streams = [] }

-- `self._streams.get(stream_key, [])`
unfoldable pub events_of : EventStore → String → List FpEvent
events_of s key = elim (Dict.get s.streams key) [ none ↦ [] | some events ↦ events ]

unfoldable pub append : EventStore → String → List FpEvent → EventStore
unfolding events_of
append s key [] = s
append s key (e ∷ es) = record { streams = Dict.put s.streams key (events_of s key ++ e ∷ es) }

-- The events behind the first one with the id; all of `whole` if there is none.
unfoldable pub behind_event : String → List FpEvent → List FpEvent → List FpEvent
behind_event id whole [] = whole
behind_event id whole (e ∷ es) =
    let later = behind_event id whole es in if e.event_id == id then es else later

-- `events[start_idx:]`, where an empty `last_event_id` counts as none
unfoldable pub from_event : Option String → List FpEvent → List FpEvent
unfolding behind_event
from_event none events = events
from_event (some id) events = if id == "" then events else behind_event id events events

unfoldable pub replay_from : EventStore → String → Option String → ℕ → List FpEvent
unfolding events_of from_event
replay_from s key last_event_id limit = take limit (from_event last_event_id (events_of s key))
