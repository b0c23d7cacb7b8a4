-- ===== src/App/Activities.antt =====
-- Activities of `FPServer` (src/fp/app/server.py) and the table of their operations.
use Prim.Native.String.{◌++◌ as cat}
use foundation_protocol.Prelude.{ℕ, String, ◌==◌, if◌then◌else◌, Option, none, some}
use foundation_protocol.Protocol.Errors.{lift, pure, gets, modify, ◌>>=◌, ◌>>◌}
use foundation_protocol.Protocol.Json.{obj, Fields, end, field}
use foundation_protocol.Protocol.Models.Activities.{Activity, ActivityState}
use foundation_protocol.Protocol.Normalize.{state, state_value}
use foundation_protocol.Runtime.Activities
use foundation_protocol.Runtime.Compaction.{init_compactor, compact}
use foundation_protocol.Runtime.Dispatch.{RegisteredOperation, register}
use foundation_protocol.App.State.{
  Environment, Stores, Enforcer, Call, utc_now, emit_event, in_activities,
}
use foundation_protocol.App.Start.{ActivityStartRequest, activity_event, start_sync}
use foundation_protocol.App.Sessions.{or_null, given_or_new}

abbrev or_empty : Option Fields → Fields
or_empty none = end
or_empty (some payload) = payload

-- `given or default`
abbrev or_text : Option String → String → String
or_text none default = default
or_text (some text) default = if text == "" then default else text

module _ (env : Environment) (stores : Stores) where
  unfoldable pub register_operation : String → RegisteredOperation → Call env stores (Unit {0})
  unfolding register
  register_operation name registered =
      modify (λ s. record s { dispatch = register name registered s.dispatch })

  unfoldable pub set_token_budget_enforcer : Option Enforcer → Call env stores (Unit {0})
  set_token_budget_enforcer enforcer = modify (λ s. record s { token_budget_enforcer = enforcer })

  unfoldable pub set_result_compaction : Option ℕ → ℕ → Call env stores (Unit {0})
  unfolding init_compactor
  set_result_compaction max_inline_bytes preview_chars = do
    compactor ← lift (init_compactor max_inline_bytes preview_chars)
    modify (λ s. record s { compactor = compactor })

  -- The request is given with the id that the caller chose, if any.
  unfoldable pub activities_start :
      ActivityStartRequest → Option String → ℕ → Call env stores Activity
  unfolding given_or_new start_sync
  activities_start request activity_id question = do
    id ← given_or_new env stores activity_id "act-"
    start_sync env stores (record request { activity_id = id }) question

  abbrev source : Option String → Call env stores String
  source producer_entity_id = gets (λ s. or_text producer_entity_id s.server_entity_id)

  unfoldable pub activities_update :
      String
      → ActivityState
      → Option String
      → Option Fields
      → Option String
      → Call env stores Activity
  unfolding utc_now Activities.transition emit_event state_value
  activities_update activity_id next_state status_message patch producer_entity_id = do
    producer ← source producer_entity_id
    now ← utc_now env stores
    updated ← in_activities env stores (
        Activities.transition stores.activities activity_id (state next_state) status_message patch
          now)
    emit_event env stores (
        activity_event env stores (cat "activity." (state_value next_state)) updated.session_id
          updated.activity_id producer
          (field "status_message" (or_null status_message)
            (field "patch" (obj (or_empty patch)) end)))
    pure updated

  unfoldable pub activities_cancel : String → Option String → Call env stores Activity
  unfolding utc_now Activities.cancel emit_event
  activities_cancel activity_id reason = do
    producer ← source none
    now ← utc_now env stores
    canceled ← in_activities env stores (Activities.cancel stores.activities activity_id reason now)
    emit_event env stores (
        activity_event env stores "activity.canceled" canceled.session_id canceled.activity_id
          producer (field "reason" (or_null reason) end))
    pure canceled

  -- A payload without a reference is compacted.
  abbrev resolved : Option Fields → Option String → Call env stores (Option Fields × Option String)
  resolved (some payload) none = do
    compactor ← gets (λ s. s.compactor)
    let compacted = compact env.encoders compactor payload in
        pure (compacted.inline_payload, compacted.result_ref)
  resolved payload ref = pure (payload, ref)

  unfoldable pub activities_complete :
      String → Option Fields → Option String → Option String → Call env stores Activity
  unfolding utc_now Activities.complete emit_event compact
  activities_complete activity_id result_payload result_ref producer_entity_id = do
    producer ← source producer_entity_id
    result ← resolved result_payload result_ref
    now ← utc_now env stores
    completed ←
        in_activities env stores
          (Activities.complete stores.activities activity_id result.0 result.1 now)
    emit_event env stores (
        activity_event env stores "activity.completed" completed.session_id completed.activity_id
          producer (field "result_ref" (or_null result.1) end))
    pure completed
