-- ===== src/Policy.antt =====
-- src/fp/policy/hooks.py and src/fp/policy/decision.py: the questions that are put to a policy engine,
-- and its answers. The fresh `uuid4` of a decision is an argument.
use Prim.Native.String.{◌++◌ as cat}
use foundation_protocol.Prelude.{String, Bool, true, false, Option, none, []}
use foundation_protocol.Dict.{Dict}
use foundation_protocol.Protocol.Json.{Fields}

pub data PolicyHook : Type 0 where
  pre_invoke pre_role_change pre_settle post_event_audit : PolicyHook

-- `hook.value`
unfoldable pub hook_value : PolicyHook → String
hook_value pre_invoke = "PRE_INVOKE"
hook_value pre_role_change = "PRE_ROLE_CHANGE"
hook_value pre_settle = "PRE_SETTLE"
hook_value post_event_audit = "POST_EVENT_AUDIT"

-- `hook.value.lower()`
abbrev lower_value : PolicyHook → String
lower_value pre_invoke = "pre_invoke"
lower_value pre_role_change = "pre_role_change"
lower_value pre_settle = "pre_settle"
lower_value post_event_audit = "post_event_audit"

pub record PolicyContext : Type 0 where
  pub hook : PolicyHook
  pub actor_entity_id : Option String
  pub session_id : Option String
  pub activity_id : Option String
  pub operation : Option String
  pub payload : Fields

pub record PolicyDecision : Type 0 where
  pub allowed : Bool
  pub reason : String
  pub policy_ref : Option String
  pub details : Dict String
  pub decision_id : String

-- `PolicyDecision(allowed, reason, policy_ref)` with the fresh value of its id
unfoldable decide : Bool → String → Option String → String → PolicyDecision
decide allowed reason policy_ref uuid = record {
  allowed = allowed;
  reason = reason;
  policy_ref = policy_ref;
  details = [];
  decision_id = cat "dec-" uuid;
}

unfoldable pub allow : String → Option String → String → PolicyDecision
unfolding decide
allow reason policy_ref uuid = decide true reason policy_ref uuid

unfoldable pub deny : String → Option String → String → PolicyDecision
unfolding decide
deny reason policy_ref uuid = decide false reason policy_ref uuid

-- A policy engine is its `evaluate`, given a fresh value.
abbrev pub PolicyEngine : Type 0
PolicyEngine = PolicyContext → String → PolicyDecision

-- `AllowAllPolicyEngine`
unfoldable pub allow_all : PolicyEngine
unfolding allow
allow_all context uuid = allow (cat "default-allow:" (lower_value context.hook)) none uuid
