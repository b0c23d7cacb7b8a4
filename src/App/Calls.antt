-- ===== src/App/Calls.antt =====
-- One call of a method of `FPServer`, or of a start of the asynchronous server, that may change its state,
-- and lists of calls, one after the other.
use foundation_protocol.Prelude.{ℕ, String, Option, List, [], ◌∷◌}
use foundation_protocol.Dict.{Dict}
use foundation_protocol.Protocol.Json.{Json, Fields}
use foundation_protocol.Protocol.Models.Signed.{ℤ}
use foundation_protocol.Protocol.Models.Entities.{Entity}
use foundation_protocol.Protocol.Models.Organizations.{Organization, Membership}
use foundation_protocol.Protocol.Models.Sessions.{SessionState, SessionBudget}
use foundation_protocol.Protocol.Models.Activities.{Activity, ActivityState}
use foundation_protocol.Protocol.Models.Economy.{MeterRecord}
use foundation_protocol.Runtime.Dispatch.{RegisteredOperation, DispatchEngine, Outcome}
use foundation_protocol.Runtime.Governance.{Evidence}
use foundation_protocol.App.State.{
  Environment, Stores, Enforcer, ServerState, NewEvent, emit_event, provenance_record,
}
use foundation_protocol.App.Graph.{
  register_entity, create_organization, add_membership, remove_membership, grant_roles,
  revoke_roles,
}
use foundation_protocol.App.Sessions.{
  sessions_create, sessions_join, sessions_update, sessions_leave, sessions_close,
}
use foundation_protocol.App.Start.{ActivityStartRequest}
use foundation_protocol.App.AsyncStart.{begin_start, resume_start}
use foundation_protocol.App.Activities.{
  register_operation, set_token_budget_enforcer, set_result_compaction, activities_start,
  activities_update, activities_cancel, activities_complete,
}
use foundation_protocol.App.Events.{
  events_stream, events_read, events_resubscribe, events_ack, push_config_set, push_config_delete,
}
use foundation_protocol.App.Economy.{
  meter_record, receipts_issue, settlements_create, settlements_confirm, disputes_open,
}
use foundation_protocol.App.Handshake.{initialize}

pub data GraphCall : Type 0 where
  register_call : Entity → GraphCall
  found_call : Organization → GraphCall
  add_call : Membership → Option String → GraphCall
  remove_call : String → String → Option String → GraphCall
  grant_call : String → String → List String → Option String → GraphCall
  revoke_call : String → String → List String → Option String → GraphCall

pub data SessionsCall : Type 0 where
  create_call :
      List String
      → Dict (List String)
      → Option String
      → Option SessionBudget
      → Option String
      → SessionsCall
  join_call : String → String → Option (List String) → SessionsCall
  update_call :
      String
      → Option String
      → Option SessionBudget
      → Option SessionState
      → Dict (List String)
      → SessionsCall
  leave_call : String → String → SessionsCall
  close_call : String → Option String → SessionsCall

pub data ActivitiesCall : Type 0 where
  -- The number is that of the question to the enforcer of token budgets.
  start_call : ActivityStartRequest → Option String → ℕ → ActivitiesCall
  -- A start of the asynchronous orchestrator is a call up to the await, which is given the table of the
  -- asynchronous server, and one that goes on with any activity and any end of a handler.
  begin_call : ActivityStartRequest → ℕ → DispatchEngine → ActivitiesCall
  resume_call : ActivityStartRequest → Activity → Outcome → ActivitiesCall
  update_call :
      String → ActivityState → Option String → Option Fields → Option String → ActivitiesCall
  cancel_call : String → Option String → ActivitiesCall
  complete_call : String → Option Fields → Option String → Option String → ActivitiesCall

pub data EconomyCall : Type 0 where
  meter_call : String → String → ℤ → String → Option Fields → EconomyCall
  issue_call : String → String → List MeterRecord → EconomyCall
  settle_call : List String → String → Option ℤ → Option String → Option String → EconomyCall
  confirm_call : String → EconomyCall
  dispute_call : String → String → String → Option (List String) → EconomyCall
  provenance_call : Evidence → EconomyCall

-- Calls that change no object: settings, events and the handshake.
pub data OtherCall : Type 0 where
  initialize_call : List String → Fields → List String → OtherCall
  operation_call : String → RegisteredOperation → OtherCall
  enforcer_call : Option Enforcer → OtherCall
  compaction_call : Option ℕ → ℕ → OtherCall
  emit_call : NewEvent → OtherCall
  stream_call : String → Option String → Option String → OtherCall
  read_call : String → ℕ → OtherCall
  resubscribe_call : String → String → OtherCall
  ack_call : String → List String → OtherCall
  set_push_call : Json → OtherCall
  delete_push_call : String → OtherCall

pub data ServerCall : Type 0 where
  on_graph : GraphCall → ServerCall
  on_sessions : SessionsCall → ServerCall
  on_activities : ActivitiesCall → ServerCall
  on_economy : EconomyCall → ServerCall
  other : OtherCall → ServerCall

module _ (env : Environment) (stores : Stores) where
  abbrev Run : Type 0 → Type 0
  Run C = C → ServerState stores → ServerState stores

  -- The state that a call leaves behind, whether it raises or not.
  unfoldable pub run_graph : Run GraphCall
  run_graph (register_call e) s = (register_entity env stores e s).1
  run_graph (found_call o) s = (create_organization env stores o s).1
  run_graph (add_call m actor) s = (add_membership env stores m actor s).1
  run_graph (remove_call o m actor) s = (remove_membership env stores o m actor s).1
  run_graph (grant_call o e roles actor) s = (grant_roles env stores o e roles actor s).1
  run_graph (revoke_call o e roles actor) s = (revoke_roles env stores o e roles actor s).1

  unfoldable pub run_sessions : Run SessionsCall
  run_sessions (create_call participants roles policy_ref budget id) s =
      (sessions_create env stores participants roles policy_ref budget id s).1
  run_sessions (join_call id e roles) s = (sessions_join env stores id e roles s).1
  run_sessions (update_call id policy_ref budget state patch) s =
      (sessions_update env stores id policy_ref budget state patch s).1
  run_sessions (leave_call id e) s = (sessions_leave env stores id e s).1
  run_sessions (close_call id reason) s = (sessions_close env stores id reason s).1

  unfoldable pub run_activities : Run ActivitiesCall
  run_activities (start_call request id question) s =
      (activities_start env stores request id question s).1
  run_activities (begin_call request question dispatch) s =
      (begin_start env stores request question dispatch s).1
  run_activities (resume_call request waited outcome) s =
      (resume_start env stores request waited outcome s).1
  run_activities (update_call id state message patch producer) s =
      (activities_update env stores id state message patch producer s).1
  run_activities (cancel_call id reason) s = (activities_cancel env stores id reason s).1
  run_activities (complete_call id payload ref producer) s =
      (activities_complete env stores id payload ref producer s).1

  unfoldable pub run_economy : Run EconomyCall
  run_economy (meter_call subject unit quantity policy metadata) s =
      (meter_record env stores subject unit quantity policy metadata s).1
  run_economy (issue_call activity provider records) s =
      (receipts_issue env stores activity provider records s).1
  run_economy (settle_call refs ref amount currency actor) s =
      (settlements_create env stores refs ref amount currency actor s).1
  run_economy (confirm_call id) s = (settlements_confirm env stores id s).1
  run_economy (dispute_call target reason claimant refs) s =
      (disputes_open env stores target reason claimant refs s).1
  run_economy (provenance_call e) s = (provenance_record env stores e s).1

  unfoldable pub run_other : Run OtherCall
  run_other (initialize_call versions capabilities profiles) s =
      (initialize env stores versions capabilities profiles s).1
  run_other (operation_call name registered) s = (register_operation env stores name registered s).1
  run_other (enforcer_call enforcer) s = (set_token_budget_enforcer env stores enforcer s).1
  run_other (compaction_call most preview) s = (set_result_compaction env stores most preview s).1
  run_other (emit_call n) s = (emit_event env stores n s).1
  run_other (stream_call session activity from) s =
      (events_stream env stores session activity from s).1
  run_other (read_call id limit) s = (events_read env stores id limit s).1
  run_other (resubscribe_call id last) s = (events_resubscribe env stores id last s).1
  run_other (ack_call id event_ids) s = (events_ack env stores id event_ids s).1
  run_other (set_push_call config) s = (push_config_set env stores config s).1
  run_other (delete_push_call id) s = (push_config_delete env stores id s).1

  unfoldable pub run : Run ServerCall
  unfolding run_graph run_sessions run_activities run_economy run_other
  run (on_graph c) s = run_graph c s
  run (on_sessions c) s = run_sessions c s
  run (on_activities c) s = run_activities c s
  run (on_economy c) s = run_economy c s
  run (other c) s = run_other c s

  unfoldable pub run_all : List ServerCall → ServerState stores → ServerState stores
  unfolding run
  run_all [] s = s
  run_all (c ∷ calls) s = run_all calls (run c s)
