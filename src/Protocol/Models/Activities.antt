-- ===== src/Protocol/Models/Activities.antt =====
-- Activities: src/fp/protocol/models.py, `ActivityState` and `Activity`.
use foundation_protocol.Prelude.{ℕ, String, Option}
use foundation_protocol.Protocol.Errors.{Result, ok}
use foundation_protocol.Protocol.Json.{Fields}
use foundation_protocol.Protocol.Models.Signed.{require_non_empty}

pub data ActivityState : Type 0 where
  submitted working input_required auth_required completed failed canceled rejected : ActivityState

pub record Activity : Type 0 where
  pub activity_id : String
  pub session_id : String
  pub owner_entity_id : String
  pub initiator_entity_id : String
  pub state : ActivityState
  pub operation : Option String
  pub input_payload : Fields
  pub result_payload : Option Fields
  pub result_ref : Option String
  pub status_message : Option String
  -- the message and the details of `error`
  pub error : Option (String × Fields)
  pub created_at : ℕ
  pub updated_at : ℕ

unfoldable pub init_activity : Activity → Result Activity
unfolding require_non_empty
init_activity a = require_non_empty a.activity_id (
    require_non_empty a.session_id
      (require_non_empty a.owner_entity_id (require_non_empty a.initiator_entity_id (ok a))))
