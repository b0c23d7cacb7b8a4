-- ===== src/App/Events.antt =====
-- Event streams and push configurations of `FPServer` (src/fp/app/server.py).
use foundation_protocol.Prelude.{ℕ, String, Option, List}
use foundation_protocol.Protocol.Errors.{◌>>=◌, ◌>>◌}
use foundation_protocol.Protocol.Json.{Json}
use foundation_protocol.Protocol.Models.Events.{FpEvent, EventStreamHandle}
use foundation_protocol.Runtime.Revise.{fetch}
use foundation_protocol.Runtime.Streams
use foundation_protocol.Runtime.Streams.Push.{PushConfig}
use foundation_protocol.Runtime.Streams.PushConfigs
use foundation_protocol.App.State.{Environment, Stores, Call, fresh, in_events, in_sessions}
use Prim.Native.String.{◌++◌ as cat}

module _ (env : Environment) (stores : Stores) where
  -- A stream is opened for a session that exists.
  unfoldable pub events_stream :
      String → Option String → Option String → Call env stores EventStreamHandle
  unfolding fetch fresh Streams.stream
  events_stream session_id activity_id from_event_id = do
    in_sessions env stores (fetch stores.sessions session_id)
    uuid ← fresh env stores
    in_events env stores (Streams.stream (cat "stream-" uuid) session_id activity_id from_event_id)

  unfoldable pub events_read : String → ℕ → Call env stores (List FpEvent)
  unfolding Streams.read
  events_read stream_id limit = in_events env stores (Streams.read stream_id limit)

  unfoldable pub events_resubscribe : String → String → Call env stores EventStreamHandle
  unfolding Streams.resubscribe
  events_resubscribe stream_id last_event_id =
      in_events env stores (Streams.resubscribe stream_id last_event_id)

  unfoldable pub events_ack : String → List String → Call env stores (Unit {0})
  unfolding Streams.ack
  events_ack stream_id event_ids = in_events env stores (Streams.ack stream_id event_ids)

  unfoldable pub push_config_set : Json → Call env stores PushConfig
  unfolding PushConfigs.push_config_set
  push_config_set config = in_events env stores (PushConfigs.push_config_set env.scheme config)

  unfoldable pub push_config_delete : String → Call env stores (Unit {0})
  unfolding PushConfigs.push_config_delete
  push_config_delete push_config_id =
      in_events env stores (PushConfigs.push_config_delete push_config_id)
