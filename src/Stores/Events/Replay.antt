-- ===== src/Stores/Events/Replay.antt =====
-- Replay in a stream whose events have distinct ids goes on right behind the event that it names.
use foundation_protocol.Prelude.{
  String, ◌≡◌, true, false, some, List, [], ◌∷◌, ◌++◌, arith, ◌==◌, eq_iff, eq_refl, map,
  if◌then◌else◌,
}
use mathlib.Core.List.{append-nil}
use foundation_protocol.Dict.Laws.{get-put}
use foundation_protocol.TextSet.{contains, Distinct}
use foundation_protocol.Protocol.Models.Events.{FpEvent}
use foundation_protocol.Stores.Events.{EventStore, events_of, append, behind_event, from_event}

abbrev pub ids : List FpEvent → List String
ids = map (λ e. e.event_id)

contains-middle :
    (before : List FpEvent) (x : FpEvent) (behind : List FpEvent)
    → contains (ids (before ++ x ∷ behind)) x.event_id ≡ true
unfolding contains
contains-middle [] x behind = ground (arith, eq_refl x.event_id)
contains-middle (e ∷ before) x behind = ground (arith, contains-middle before x behind)

behind-middle :
    (whole before : List FpEvent) (x : FpEvent) (behind : List FpEvent)
    → Distinct (ids (before ++ x ∷ behind))
    → behind_event x.event_id whole (before ++ x ∷ behind) ≡ behind
unfolding behind_event
behind-middle whole [] x behind d = ground (arith, eq_refl x.event_id)
behind-middle whole (e ∷ before) x behind d = ground (
  arith,
  eq_iff e.event_id x.event_id,
  contains-middle before x behind,
  behind-middle whole before x behind d.1,
)

-- In a stream whose event ids are distinct and not empty, replay from an event of the stream gives
-- exactly the events behind it.
pub from_event-middle :
    (before : List FpEvent) (x : FpEvent) (behind : List FpEvent)
    → Distinct (ids (before ++ x ∷ behind))
    → contains (ids (before ++ x ∷ behind)) "" ≡ false
    → from_event (some x.event_id) (before ++ x ∷ behind) ≡ behind
unfolding from_event
from_event-middle before x behind d full = ground (
  arith,
  eq_iff x.event_id "",
  contains-middle before x behind,
  behind-middle (before ++ x ∷ behind) before x behind d,
)

-- An append goes to the end of its own stream and leaves the others alone.
pub events_of-append :
    (s : EventStore) (key other : String) (events : List FpEvent)
    → events_of (append s key events) other
      ≡ (if key == other then events_of s other ++ events else events_of s other)
unfolding append events_of
events_of-append s key other [] = ground (arith, append-nil (events_of s other))
events_of-append s key other (e ∷ es) =
    ground (arith, get-put s.streams key other (events_of s key ++ e ∷ es), eq_iff key other)
