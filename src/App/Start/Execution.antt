-- ===== src/App/Start/Execution.antt =====
-- src/fp/app/activity_orchestrator.py: the creation of an activity and its execution. The asynchronous
-- orchestrator differs from `ActivityStartOrchestrator` in `execute` alone, which is an argument here.

use foundation_protocol.Prelude.{String, Bool, false, not, ◌==◌, if◌then◌else◌, Option, none, some}
use foundation_protocol.Protocol.Errors.{pure, gets, ◌>>=◌, ◌>>◌}
use foundation_protocol.Protocol.Json.{Json, bool, num, str, obj, Fields, end, field, get_field}
use foundation_protocol.Protocol.Models.Activities.{Activity, working}
use foundation_protocol.Protocol.Normalize.{state}
use foundation_protocol.Runtime.Activities
use foundation_protocol.Runtime.Dispatch.{
  DispatchContext, DispatchEngine, Outcome, returned, raised, has_handler,
}
use foundation_protocol.Runtime.Compaction.{CompactionResult, compact}
use foundation_protocol.Observability.Tokens.{TokenUsage, measure}
use foundation_protocol.App.State.{
  Environment, Stores, Call, NewEvent, utc_now, emit_event, in_activities,
}
use foundation_protocol.App.Sessions.{or_null}

pub record ActivityStartRequest : Type 0 where
  pub session_id : String
  pub owner_entity_id : String
  pub initiator_entity_id : String
  pub operation : String
  pub input_payload : Fields
  pub activity_id : String
  pub idempotency_key : Option String
  pub auto_execute : Bool

-- `isinstance(output, dict) and output.get("state") == "working"`
abbrev is_working_text : Option Json → Bool
is_working_text (some (str text)) = text == "working"
is_working_text _ = false

abbrev pub still_working : Json → Bool
still_working (obj output) = is_working_text (get_field output "state")
still_working _ = false

-- `output if isinstance(output, dict) else {"value": output}`
abbrev pub result_payload : Json → Fields
result_payload (obj output) = output
result_payload output = field "value" output end

abbrev or_empty : Option Fields → Fields
or_empty none = end
or_empty (some payload) = payload

-- What runs the handler: the synchronous dispatch engine, or the asynchronous one.
abbrev pub Execute : Type 0
Execute = DispatchEngine → DispatchContext → Fields → Outcome

module _ (env : Environment) (stores : Stores) where
  -- An event of an activity.
  abbrev pub activity_event : String → String → String → String → Fields → NewEvent
  activity_event event_type session_id activity_id producer payload = record {
    event_type = event_type;
    session_id = session_id;
    activity_id = some activity_id;
    producer_entity_id = producer;
    payload = payload;
    policy_ref = none;
  }

module _ (env : Environment) (stores : Stores) (r : ActivityStartRequest) where
  -- `_create_submitted_activity`
  unfoldable pub create_submitted : Call env stores Activity
  unfolding utc_now Activities.start emit_event
  create_submitted = do
    created_at ← utc_now env stores
    updated_at ← utc_now env stores
    activity ← in_activities env stores (
        Activities.start stores.activities (record {
          activity_id = r.activity_id;
          session_id = r.session_id;
          owner_entity_id = r.owner_entity_id;
          initiator_entity_id = r.initiator_entity_id;
          operation = r.operation;
          input_payload = r.input_payload;
          created_at = created_at;
          updated_at = updated_at;
        }))
    emit_event env stores (
        activity_event env stores "activity.submitted" r.session_id activity.activity_id
          r.initiator_entity_id (field "operation" (str r.operation) end))
    pure activity

  unfoldable pub to_working : Activity → Call env stores Activity
  unfolding utc_now Activities.transition emit_event
  to_working activity = do
    now ← utc_now env stores
    moved ←
        in_activities env stores (
          Activities.transition stores.activities activity.activity_id (state working) none none
            now)
    emit_event env stores (
        activity_event env stores "activity.working" r.session_id moved.activity_id
          r.owner_entity_id (field "operation" (str r.operation) end))
    pure moved

  unfoldable pub to_failed : Activity → String → Call env stores Activity
  unfolding utc_now Activities.fail emit_event
  to_failed activity message = do
    now ← utc_now env stores
    moved ←
        in_activities env stores
          (Activities.fail stores.activities activity.activity_id message none now)
    emit_event env stores (
        activity_event env stores "activity.failed" r.session_id moved.activity_id r.owner_entity_id
          (field "error" (str message) end))
    pure moved

  abbrev usage_json : TokenUsage → Json
  usage_json usage = obj (
      field "input_tokens" (num (env.encoders.decimal usage.input_tokens))
        (field "output_tokens" (num (env.encoders.decimal usage.output_tokens)) end))

  abbrev completed_payload : CompactionResult → Fields
  completed_payload c =
      let usage = measure env.text_length r.input_payload (or_empty c.inline_payload) in
      field "usage" (usage_json usage) (
        field "estimated_cost" (num (env.estimated_cost usage))
          (field "result_ref" (or_null c.result_ref) (field "compacted" (bool c.compacted) end)))

  unfoldable pub to_completed : Activity → CompactionResult → Call env stores Activity
  unfolding utc_now Activities.complete emit_event measure
  to_completed activity c = do
    now ← utc_now env stores
    moved ← in_activities env stores (
        Activities.complete stores.activities activity.activity_id c.inline_payload c.result_ref
          now)
    emit_event env stores (
        activity_event env stores "activity.completed" r.session_id moved.activity_id
          r.owner_entity_id (completed_payload c))
    pure moved

  -- What follows the end of the handler.
  unfoldable pub finish : Activity → Outcome → Call env stores Activity
  unfolding to_failed to_completed compact
  finish activity (raised message) = to_failed activity message
  finish activity (returned output) = if still_working output then pure activity else do
    compactor ← gets (λ s. s.compactor)
    to_completed activity (compact env.encoders compactor (result_payload output))

  abbrev pub dispatch_context : Activity → DispatchContext
  dispatch_context activity = record {
    session_id = r.session_id;
    activity_id = activity.activity_id;
    operation = r.operation;
    actor_entity_id = r.initiator_entity_id;
    metadata = end;
  }

  -- `_auto_execute_if_possible`
  unfoldable pub auto_execute_if_possible : Execute → Activity → Call env stores Activity
  unfolding has_handler to_working finish
  auto_execute_if_possible run_handler activity = do
    dispatch ← gets (λ s. s.dispatch)
    if not r.auto_execute
        then pure activity
        else if not (has_handler dispatch r.operation)
        then pure activity
        else do
          moved ← to_working activity
          finish moved (run_handler dispatch (dispatch_context moved) r.input_payload)
