-- ===== src/Runtime/Streams/Keys.antt =====
-- The two streams that an event is published to, and the keys of streams.
use mathlib.Core.List.{append-nil}
use text.Mathlib.TextLemmas.{append_assoc}
use Prim.Native.String.{◌++◌ as cat}
use foundation_protocol.Prelude.{
  String, ◌≡◌, false, Option, none, some, List, [], ◌∷◌, ◌++◌, arith, ◌==◌, Bool-cases, inl, inr,
  if◌then◌else◌, ap, ◌∙◌, sym,
}
use foundation_protocol.Protocol.Models.Events.{FpEvent}
use foundation_protocol.Stores.Events
use foundation_protocol.Stores.Events.{events_of}
use foundation_protocol.Stores.Events.Replay.{events_of-append}
use foundation_protocol.Runtime.Streams.{EventEngine, stream_key, publish, append_activity}

-- What an event adds to the stream under `key`, as one of its session and as one of its activity.
abbrev pub session_copies : FpEvent → String → List FpEvent
session_copies event key = if stream_key event.session_id none == key then event ∷ [] else []

abbrev pub activity_copies : Option String → FpEvent → String → List FpEvent
activity_copies none event key = []
activity_copies (some a) event key =
    if a == "" then [] else if stream_key event.session_id (some a) == key then event ∷ [] else []

events_of-append_activity :
    (a : Option String) (event : FpEvent) (store : Events.EventStore) (key : String)
    → events_of (append_activity a event store) key
      ≡ events_of store key ++ activity_copies a event key
events_of-append_activity none event store key = sym (append-nil (events_of store key))
events_of-append_activity (some a) event store key = elim (Bool-cases (a == "")) [
  | inl blank ↦ ground (arith, append-nil (events_of store key), blank)
  | inr full ↦ ground (
    arith,
    append-nil (events_of store key),
    full,
    events_of-append store (stream_key event.session_id (some a)) key (event ∷ []),
  )
]

-- A published event is appended to the stream of its session and then, where it names an activity
-- that is not empty, to the stream of that activity; each other stream is left as it was.
pub events_of-publish :
    (event : FpEvent) (engine : EventEngine) (key : String)
    → events_of (publish event engine).store key
      ≡ (events_of engine.store key ++ session_copies event key)
        ++ activity_copies event.activity_id event key
unfolding publish
events_of-publish event engine key =
    events_of-append_activity event.activity_id event
      (Events.append engine.store (stream_key event.session_id none) (event ∷ [])) key
    ∙ ap (λ l. l ++ activity_copies event.activity_id event key) session_part
  where
    session_part :
        events_of (Events.append engine.store (stream_key event.session_id none) (event ∷ [])) key
        ≡ events_of engine.store key ++ session_copies event key
    session_part = ground (
      arith,
      append-nil (events_of engine.store key),
      events_of-append engine.store (stream_key event.session_id none) key (event ∷ []),
    )

-- For a non-empty text c and texts a and b, the activity `b:c` of the session `a` and the activity
-- `c` of the session `a:b` have the same stream key.
pub stream_key-collides :
    (a b c : String)
    → (c == "") ≡ false
    → (cat b (cat ":" c) == "") ≡ false
    → stream_key a (some (cat b (cat ":" c))) ≡ stream_key (cat a (cat ":" b)) (some c)
unfolding stream_key
stream_key-collides a b c full_c full =
    ground
      (arith, full_c, full, append_assoc a (cat ":" b) (cat ":" c), append_assoc ":" b (cat ":" c))
