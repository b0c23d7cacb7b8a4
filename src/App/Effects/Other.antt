-- ===== src/App/Effects/Other.antt =====
-- The remaining calls of the server change none of the stores whose objects refer to each other.
use foundation_protocol.Prelude.{arith, ◌≡◌, refl}
use foundation_protocol.Runtime.Revise.{fetch}
use foundation_protocol.App.State.{Environment, Stores, ServerState, fresh}
use foundation_protocol.App.Quiet.{core, count-Keeps, emit_event-Keeps}
use foundation_protocol.App.Handshake.{initialize}
use foundation_protocol.App.Activities.{
  register_operation, set_token_budget_enforcer, set_result_compaction,
}
use foundation_protocol.App.Events.{
  events_stream, events_read, events_resubscribe, events_ack, push_config_set, push_config_delete,
}
use foundation_protocol.App.Calls.{
  OtherCall, initialize_call, operation_call, enforcer_call, compaction_call, emit_call,
  stream_call, read_call, resubscribe_call, ack_call, set_push_call, delete_push_call, run_other,
}

module _ (env : Environment) (stores : Stores) (s : ServerState stores) where
  pub run_other_same : (c : OtherCall) → core (run_other env stores c s) ≡ core s
  unfolding run_other initialize register_operation set_token_budget_enforcer set_result_compaction
      events_stream fresh fetch events_read events_resubscribe events_ack push_config_set
      push_config_delete
  run_other_same (initialize_call versions capabilities profiles) =
      ground (arith, count-Keeps env stores)
  run_other_same (operation_call name registered) = refl
  run_other_same (enforcer_call enforcer) = refl
  run_other_same (compaction_call most preview) = ground arith
  run_other_same (emit_call n) = emit_event-Keeps env stores n s
  run_other_same (stream_call session activity from) = ground arith
  run_other_same (read_call id limit) = refl
  run_other_same (resubscribe_call id last) = refl
  run_other_same (ack_call id event_ids) = refl
  run_other_same (set_push_call config) = refl
  run_other_same (delete_push_call id) = refl
