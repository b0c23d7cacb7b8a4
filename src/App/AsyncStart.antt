-- ===== src/App/AsyncStart.antt =====
-- `AsyncActivityStartOrchestrator` of src/fp/app/activity_orchestrator.py. It has a table of operations of
-- its own and awaits the handler. Other calls may run while it waits, so that a start is two calls: what
-- it does up to the await, and what it does with the end of the handler.
use foundation_protocol.Prelude.{ℕ, not, if◌then◌else◌}
use foundation_protocol.Protocol.Errors.{modify, pure, ◌>>=◌, ◌>>◌}
use foundation_protocol.Protocol.Models.Activities.{Activity}
use foundation_protocol.Runtime.Dispatch.{DispatchEngine, Outcome, has_handler, execute_async}
use foundation_protocol.App.State.{Environment, Stores, Call, enforce_policy}
use foundation_protocol.App.Start.{
  ActivityStartRequest, create_submitted, to_working, finish, dispatch_context, remembered,
  invocation, admit,
}

-- How far a start has come: to its end, or to the await, with the activity that is WORKING and the end
-- that the handler will come to.
pub data Progress : Type 0 where
  ended : Activity → Progress
  waiting : Activity → Outcome → Progress

module _ (env : Environment) (stores : Stores) (r : ActivityStartRequest) where
  -- `_auto_execute_if_possible` up to the await
  unfoldable pub begin_execution : DispatchEngine → Activity → Call env stores Progress
  unfolding has_handler to_working
  begin_execution dispatch activity =
      if not r.auto_execute
      then pure (ended activity)
      else if not (has_handler dispatch r.operation)
      then pure (ended activity)
      else do
        moved ← to_working env stores r activity
        pure (
            waiting moved
              (execute_async dispatch (dispatch_context env stores r moved) r.input_payload))

  -- A start that does not wait stores its activity under the key.
  unfoldable pub keep_ended : Progress → Call env stores Progress
  unfolding remembered
  keep_ended (ended activity) = do
    modify (remembered env stores r r.idempotency_key activity)
    pure (ended activity)
  keep_ended (waiting activity outcome) = pure (waiting activity outcome)

  -- `start` behind the decision of the policy engine
  unfoldable pub begin_decided : DispatchEngine → Call env stores Progress
  unfolding create_submitted begin_execution keep_ended
  begin_decided dispatch = do
    submitted ← create_submitted env stores r
    progress ← begin_execution dispatch submitted
    keep_ended progress

  unfoldable pub begin_new : DispatchEngine → Call env stores Progress
  unfolding enforce_policy begin_decided
  begin_new dispatch = do
    enforce_policy env stores (invocation env stores r)
    begin_decided dispatch

  -- `start` up to the await, over the table of the asynchronous server
  unfoldable pub begin_start : ℕ → DispatchEngine → Call env stores Progress
  unfolding admit begin_new
  begin_start question dispatch = admit env stores r question ended (begin_new dispatch)

  -- `start` from the await on
  unfoldable pub resume_start : Activity → Outcome → Call env stores Activity
  unfolding finish remembered
  resume_start waited outcome = do
    activity ← finish env stores r waited outcome
    modify (remembered env stores r r.idempotency_key activity)
    pure activity
