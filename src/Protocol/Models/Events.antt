-- ===== src/Protocol/Models/Events.antt =====
-- Events, stream handles and envelopes: src/fp/protocol/models.py.
use foundation_protocol.Prelude.{ℕ, String, Option, List}
use foundation_protocol.Protocol.Errors.{Result, ok}
use foundation_protocol.Protocol.Json.{Fields}
use foundation_protocol.Protocol.Models.Signed.{require_non_empty}

pub record FpEvent : Type 0 where
  pub event_id : String
  pub event_type : String
  pub session_id : String
  pub producer_entity_id : String
  pub occurred_at : ℕ
  pub activity_id : Option String
  pub trace_id : Option String
  pub causation_id : Option String
  pub payload : Fields
  pub policy_ref : Option String
  pub evidence_refs : List String

unfoldable pub init_event : FpEvent → Result FpEvent
unfolding require_non_empty
init_event e = require_non_empty e.event_id (
    require_non_empty e.event_type
      (require_non_empty e.session_id (require_non_empty e.producer_entity_id (ok e))))

pub record EventStreamHandle : Type 0 where
  pub stream_id : String
  pub session_id : String
  pub activity_id : Option String
  pub last_read_event_id : Option String
