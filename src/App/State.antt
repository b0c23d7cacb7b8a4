-- ===== src/App/State.antt =====
-- The state of `FPServer` (src/fp/app/server.py) with its internal helpers. The stores are known by
-- their interfaces alone; fresh values (`uuid4`) and readings of the clock are numbered.
use Prim.Native.String.{◌++◌ as cat}
use foundation_protocol.Prelude.{ℕ, suc, String, Bool, Option, none, some, List, [], ◌∷◌}
use foundation_protocol.Protocol.Errors.{Result, ok, Exec, zoom, lift, pure, modify, ◌>>=◌, ◌>>◌}
use foundation_protocol.Protocol.Json.{Json, Fields}
use foundation_protocol.Protocol.Models.Signed.{ℤ}
use foundation_protocol.Protocol.Models.Entities.{Entity}
use foundation_protocol.Protocol.Models.Activities.{Activity}
use foundation_protocol.Protocol.Models.Events.{FpEvent, init_event}
use foundation_protocol.Protocol.Models.Economy.{ProvenanceRecord, init_provenance_record}
use foundation_protocol.Stores.Interfaces.{
  EntityStore, OrganizationStore, MembershipStore, SessionStore, ActivityStore, ReceiptStore,
  SettlementStore, DisputeStore, ProvenanceStore,
}
use foundation_protocol.Runtime.Revise.{fetch}
use foundation_protocol.Runtime.Streams.{EventEngine, publish}
use foundation_protocol.Runtime.Idempotency.{IdempotencyGuard}
use foundation_protocol.Runtime.Dispatch.{DispatchEngine}
use foundation_protocol.Runtime.Compaction.{ContextCompactor, Encoders}
use foundation_protocol.Runtime.Governance
use foundation_protocol.Runtime.Governance.{Evidence}
use foundation_protocol.Observability.Metrics.{MetricsRegistry, inc}
use foundation_protocol.Observability.Tokens.{TokenUsage}
use foundation_protocol.Economy.Receipts.{Signatures, ReceiptService}
use foundation_protocol.Policy.{PolicyEngine, PolicyContext, PolicyDecision}

-- What the server takes from Python's library and from the outside.
pub record Environment : Type 0 where
  -- the n-th `uuid4().hex` and the n-th `utc_now()`
  pub uuid4 : ℕ → String
  pub utc_now : ℕ → ℕ
  pub encoders : Encoders
  -- `json.dumps(payload, sort_keys=True, …)`
  pub dumps : Fields → String
  -- `len(json.dumps(payload, ensure_ascii=False, …))`
  pub text_length : Fields → ℕ
  -- the text of the rounded `CostMeter.estimate`
  pub estimated_cost : TokenUsage → String
  -- an amount as JSON
  pub amount_json : ℤ → Json
  pub signatures : Signatures
  pub texts : Governance.Texts
  -- the scheme that `urlparse` finds
  pub scheme : String → String
  -- whether an event loop is running
  pub loop_running : Bool
  pub policy_engine : PolicyEngine

-- `InMemoryStoreBundle`, or another bundle of stores
pub record Stores : Type 1 where
  pub entities : EntityStore
  pub organizations : OrganizationStore
  pub memberships : MembershipStore
  pub sessions : SessionStore
  pub activities : ActivityStore
  pub receipts : ReceiptStore
  pub settlements : SettlementStore
  pub disputes : DisputeStore
  pub provenance : ProvenanceStore

-- An enforcer of token budgets, by what it answers when it is asked for the n-th time: it may have a
-- state of its own or read one from elsewhere. An exception other than FPError stands as `value_error`;
-- an enforcer that calls the server back is not modelled.
abbrev pub Enforcer : Type 0
Enforcer = ℕ → Fields → Result (Unit {0})

pub record ServerState (stores : Stores) : Type 0 where
  pub entities : stores.entities.State
  pub organizations : stores.organizations.State
  pub memberships : stores.memberships.base.State
  pub sessions : stores.sessions.State
  pub activities : stores.activities.base.State
  pub receipts : stores.receipts.State
  pub settlements : stores.settlements.State
  pub disputes : stores.disputes.State
  pub provenance : stores.provenance.State
  pub events : EventEngine
  pub idempotency : IdempotencyGuard Activity
  pub dispatch : DispatchEngine
  pub compactor : ContextCompactor
  pub metrics : MetricsRegistry
  -- `_token_budget_enforcer`
  pub token_budget_enforcer : Option Enforcer
  pub receipt_service : ReceiptService
  pub server_entity_id : String
  -- how many fresh values and readings of the clock have been taken
  pub uuids : ℕ
  pub readings : ℕ

-- The arguments of `_emit_event`.
pub record NewEvent : Type 0 where
  pub event_type : String
  pub session_id : String
  pub activity_id : Option String
  pub producer_entity_id : String
  pub payload : Fields
  pub policy_ref : Option String

module _ (env : Environment) (stores : Stores) where
  abbrev pub Call : Type 0 → Type 0
  Call A = Exec (ServerState stores) A

  -- `uuid4().hex`
  unfoldable pub fresh : Call String
  fresh s = (ok (env.uuid4 s.uuids), record s { uuids = suc s.uuids })

  -- `_new_id`
  unfoldable pub new_id : String → Call String
  unfolding fresh
  new_id prefix = do uuid ← fresh; pure (cat prefix uuid)

  unfoldable pub utc_now : Call ℕ
  utc_now s = (ok (env.utc_now s.readings), record s { readings = suc s.readings })

  -- `self.metrics.inc(name)`
  unfoldable pub count : String → Call (Unit {0})
  count name = modify (λ s. record s { metrics = inc name 1 s.metrics })

  -- the check of an event, and its publication
  unfoldable pub publish_checked : FpEvent → Call FpEvent
  unfolding init_event
  publish_checked event = do
    checked ← lift (init_event event)
    modify (λ s. record s { events = publish checked s.events })
    pure checked

  -- `_emit_event`
  unfoldable pub emit_event : NewEvent → Call FpEvent
  unfolding new_id utc_now publish_checked count
  emit_event n = do
    event_id ← new_id "evt-"
    trace_id ← new_id "trace-"
    now ← utc_now
    event ← publish_checked (record {
      event_id = event_id;
      event_type = n.event_type;
      session_id = n.session_id;
      producer_entity_id = n.producer_entity_id;
      occurred_at = now;
      activity_id = n.activity_id;
      trace_id = some trace_id;
      causation_id = none;
      payload = n.payload;
      policy_ref = n.policy_ref;
      evidence_refs = [];
    })
    count "events.emitted"
    pure event

  -- An event of a session, without an activity.
  abbrev pub session_event : String → String → String → Fields → NewEvent
  session_event event_type session_id producer payload = record {
    event_type = event_type;
    session_id = session_id;
    activity_id = none;
    producer_entity_id = producer;
    payload = payload;
    policy_ref = none;
  }

  -- `_emit_org_event`
  unfoldable pub emit_org_event : String → String → Fields → Call FpEvent
  unfolding emit_event
  emit_org_event organization_id event_type payload =
      emit_event
        (session_event event_type (cat "org:" organization_id) "fp:system:org-registry" payload)

  abbrev store_provenance : ProvenanceRecord → Call (Unit {0})
  store_provenance entry s =
      (ok tt, record s { provenance = stores.provenance.put s.provenance entry })

  unfoldable pub provenance_record : Evidence → Call ProvenanceRecord
  unfolding new_id utc_now init_provenance_record
  provenance_record e = do
    record_id ← new_id "prov-"
    now ← utc_now
    entry ← lift (
        init_provenance_record (record {
          record_id = record_id;
          subject_refs = e.subject_refs;
          policy_refs = e.policy_refs;
          outcome = e.outcome;
          signer_ref = e.signer_ref;
          timestamp = now;
          input_digest_refs = [];
          metadata = e.metadata;
        }))
    store_provenance entry
    pure entry

  -- The policy engine, which is given a fresh value.
  unfoldable pub evaluate : PolicyContext → Call PolicyDecision
  unfolding fresh
  evaluate context = do uuid ← fresh; pure (env.policy_engine context uuid)

  -- `_enforce_policy`
  unfoldable pub enforce_policy : PolicyContext → Call (Unit {0})
  unfolding evaluate provenance_record Governance.enforce
  enforce_policy context = Governance.enforce env.texts evaluate provenance_record context

  -- The stores, as the engines see them.
  abbrev pub in_entities : {A : Type 0} → Exec stores.entities.State A → Call A
  in_entities = zoom (λ s. s.entities) (λ s t. record s { entities = t })

  abbrev pub in_sessions : {A : Type 0} → Exec stores.sessions.State A → Call A
  in_sessions = zoom (λ s. s.sessions) (λ s t. record s { sessions = t })

  abbrev pub in_memberships : {A : Type 0} → Exec stores.memberships.base.State A → Call A
  in_memberships = zoom (λ s. s.memberships) (λ s t. record s { memberships = t })

  abbrev pub in_activities : {A : Type 0} → Exec stores.activities.base.State A → Call A
  in_activities = zoom (λ s. s.activities) (λ s t. record s { activities = t })

  abbrev pub in_events : {A : Type 0} → Exec EventEngine A → Call A
  in_events = zoom (λ s. s.events) (λ s t. record s { events = t })

  -- `_require_entity`
  unfoldable pub require_entity : String → Call Entity
  unfolding fetch
  require_entity entity_id = in_entities (fetch stores.entities entity_id)

  -- `for participant in participants: self._require_entity(participant)`
  unfoldable pub require_entities : List String → Call (Unit {0})
  unfolding require_entity
  require_entities [] = pure tt
  require_entities (e ∷ es) = do require_entity e; require_entities es
