-- ===== src/App/Start.antt =====
-- src/fp/app/activity_orchestrator.py: the start of an activity, from the checks of its request to what
-- is remembered of it. Execution has what happens between.
pub mod Execution
use Prim.Native.String.{◌++◌ as cat}
use foundation_protocol.Prelude.{
  suc, String, Bool, true, false, not, ◌==◌, if◌then◌else◌, Option, none, some, ltb, ℕ,
}
use foundation_protocol.TextSet.{contains}
use foundation_protocol.Protocol.Errors.{
  Result, ok, lift, pure, gets, modify, raise_if, rate_limited, authz_denied,
  invalid_state_transition, ◌>>=◌, ◌>>◌,
}
use foundation_protocol.Protocol.Json.{Json, null, num, str, obj, Fields, end, field}
use foundation_protocol.Protocol.Models.Signed.{ℤ, pos, negsuc}
use foundation_protocol.Protocol.Models.Sessions.{Session, active}
use foundation_protocol.Protocol.Models.Activities.{Activity}
use foundation_protocol.Runtime.Revise.{fetch}
use foundation_protocol.Runtime.Sessions.{same_state}
use foundation_protocol.Runtime.Activities
use foundation_protocol.Runtime.Idempotency
use foundation_protocol.Runtime.Dispatch.{execute}
use foundation_protocol.Observability.Tokens.{estimate_payload_tokens}
use foundation_protocol.Policy.{pre_invoke, PolicyContext}
use foundation_protocol.App.State.{
  Environment, Stores, Enforcer, ServerState, Call, enforce_policy, in_sessions, require_entity,
}
pub use foundation_protocol.App.Start.Execution.{
  ActivityStartRequest, still_working, result_payload, Execute, activity_event, dispatch_context,
}
unfoldable pub use foundation_protocol.App.Start.Execution.{
  create_submitted, to_working, to_failed, to_completed, finish, auto_execute_if_possible,
}

-- `_idempotency_fingerprint`, before `json.dumps`
unfoldable pub stable_payload : ActivityStartRequest → Fields
stable_payload r = field "session_id" (str r.session_id) (
    field "owner_entity_id" (str r.owner_entity_id) (
      field "initiator_entity_id" (str r.initiator_entity_id)
        (field "operation" (str r.operation) (field "input_payload" (obj r.input_payload) end))))

-- `token_limit is not None and tokens > token_limit`
abbrev pub exceeds : ℕ → Option ℤ → Bool
exceeds tokens none = false
exceeds tokens (some (pos limit)) = ltb limit tokens
exceeds tokens (some (negsuc _)) = true

module _ (env : Environment) (stores : Stores) where
  -- the numbers in the payload that the enforcer is given
  abbrev limit_json : Option ℤ → Json
  limit_json none = null
  limit_json (some (pos n)) = num (env.encoders.decimal n)
  limit_json (some (negsuc n)) = num (cat "-" (env.encoders.decimal (suc n)))

  abbrev ask_enforcer : Option Enforcer → ℕ → Fields → Call env stores (Unit {0})
  ask_enforcer none question payload = pure tt
  ask_enforcer (some enforcer) question payload = lift (enforcer question payload)

  -- what the enforcer is asked
  unfoldable pub budget_question : Session → String → Fields → Fields
  unfolding estimate_payload_tokens
  budget_question session operation input_payload = field "session_id" (str session.session_id) (
      field "operation" (str operation) (
        field "estimated_input_tokens"
          (num (env.encoders.decimal (estimate_payload_tokens env.text_length input_payload)))
          (field "token_limit" (limit_json session.budget.token_limit) end)))

  -- `_enforce_token_budget`, with the number of the question to the enforcer
  unfoldable pub enforce_token_budget : ℕ → Session → String → Fields → Call env stores (Unit {0})
  unfolding estimate_payload_tokens
  enforce_token_budget question session operation input_payload = do
    raise_if
        (exceeds (estimate_payload_tokens env.text_length input_payload) session.budget.token_limit)
        rate_limited
    enforcer ← gets (λ s. s.token_budget_enforcer)
    ask_enforcer enforcer question (budget_question session operation input_payload)

module _ (env : Environment) (stores : Stores) (r : ActivityStartRequest) where
  -- `_validate_participants_and_session`
  unfoldable pub validate : Call env stores Session
  unfolding require_entity fetch contains
  validate = do
    require_entity env stores r.owner_entity_id
    require_entity env stores r.initiator_entity_id
    session ← in_sessions env stores (fetch stores.sessions r.session_id)
    raise_if (not (same_state session.state active)) invalid_state_transition
    raise_if (not (contains session.participants r.owner_entity_id)) authz_denied
    raise_if (not (contains session.participants r.initiator_entity_id)) authz_denied
    pure session

  abbrev pub fingerprint : String
  fingerprint = env.dumps (stable_payload r)

  -- `if not request.idempotency_key`
  unfoldable pub check_idempotency : Option String → Call env stores (Option Activity)
  unfolding Idempotency.check
  check_idempotency none s = (ok none, s)
  check_idempotency (some key) s =
      if key == ""
      then (ok none, s)
      else (Idempotency.check s.idempotency key (some fingerprint), s)

  -- `if request.idempotency_key: … store`
  unfoldable pub remembered : Option String → Activity → ServerState stores → ServerState stores
  unfolding Idempotency.store
  remembered none activity s = s
  remembered (some key) activity s =
      if key == ""
      then s
      else record s { idempotency = Idempotency.store s.idempotency key activity fingerprint }

  -- `start` behind the decision of the policy engine
  unfoldable pub start_decided : Execute → Call env stores Activity
  unfolding create_submitted auto_execute_if_possible remembered
  start_decided run_handler = do
    submitted ← create_submitted env stores r
    activity ← auto_execute_if_possible env stores r run_handler submitted
    modify (remembered r.idempotency_key activity)
    pure activity

  abbrev pub invocation : PolicyContext
  invocation = record {
    hook = pre_invoke;
    actor_entity_id = some r.initiator_entity_id;
    session_id = some r.session_id;
    activity_id = none;
    operation = some r.operation;
    payload = r.input_payload;
  }

  -- `start` behind the check of the key, where the key is new
  unfoldable pub start_new : Execute → Call env stores Activity
  unfolding enforce_policy start_decided
  start_new run_handler = do enforce_policy env stores invocation; start_decided run_handler

  abbrev pub unless_cached :
      {A : Type 0} → (Activity → A) → Call env stores A → Option Activity → Call env stores A
  unless_cached cached new (some activity) = pure (cached activity)
  unless_cached cached new none = new

  -- What `start` does in front of a new activity: a known key ends it.
  unfoldable pub admit : {A : Type 0} → ℕ → (Activity → A) → Call env stores A → Call env stores A
  unfolding validate enforce_token_budget check_idempotency
  admit question cached new = do
    session ← validate
    enforce_token_budget env stores question session r.operation r.input_payload
    hit ← check_idempotency r.idempotency_key
    unless_cached cached new hit

  unfoldable pub start : ℕ → Execute → Call env stores Activity
  unfolding admit start_new
  start question run_handler = admit question (λ a. a) (start_new run_handler)

  -- `ActivityStartOrchestrator.start`
  unfoldable pub start_sync : ℕ → Call env stores Activity
  unfolding start
  start_sync question = start question (execute env.loop_running)
