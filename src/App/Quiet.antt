-- ===== src/App/Quiet.antt =====
-- The helpers of the server that change none of the stores that refer to each other: fresh values,
-- the clock, metrics, events, policy decisions and their provenance, and all that only reads.
use foundation_protocol.Prelude.{arith, String, refl}
use foundation_protocol.Protocol.Json.{Fields}
use foundation_protocol.Protocol.Rules.{Quiet}
use foundation_protocol.Runtime.Governance
use foundation_protocol.App.State.{
  Environment, Stores, ServerState, Call, NewEvent, fresh, new_id, utc_now, count, publish_checked,
  emit_event, emit_org_event, provenance_record, evaluate, enforce_policy, require_entity,
}
use foundation_protocol.Protocol.Models.Events.{FpEvent}
use foundation_protocol.Policy.{PolicyContext}

-- The stores whose objects refer to each other.
pub record Core (stores : Stores) : Type 0 where
  pub entities : stores.entities.State
  pub organizations : stores.organizations.State
  pub memberships : stores.memberships.base.State
  pub sessions : stores.sessions.State
  pub activities : stores.activities.base.State
  pub receipts : stores.receipts.State
  pub settlements : stores.settlements.State

abbrev pub core : {stores : Stores} → ServerState stores → Core stores
core s = record {
  entities = s.entities;
  organizations = s.organizations;
  memberships = s.memberships;
  sessions = s.sessions;
  activities = s.activities;
  receipts = s.receipts;
  settlements = s.settlements;
}

module _ (env : Environment) (stores : Stores) where
  abbrev pub Keeps : {A : Type 0} → Call env stores A → Type 0
  Keeps m = Quiet (core {stores = stores}) m

  fresh-Keeps : Keeps (fresh env stores)
  unfolding fresh
  fresh-Keeps s = refl

  pub new_id-Keeps : (prefix : String) → Keeps (new_id env stores prefix)
  unfolding new_id
  new_id-Keeps prefix s = refl

  pub utc_now-Keeps : Keeps (utc_now env stores)
  unfolding utc_now
  utc_now-Keeps s = refl

  pub count-Keeps : (name : String) → Keeps (count env stores name)
  unfolding count
  count-Keeps name s = refl

  publish_checked-Keeps : (event : FpEvent) → Keeps (publish_checked env stores event)
  unfolding publish_checked
  publish_checked-Keeps event s = ground arith

  pub emit_event-Keeps : (n : NewEvent) → Keeps (emit_event env stores n)
  unfolding emit_event publish_checked new_id fresh count utc_now
  emit_event-Keeps n s = ground arith

  pub provenance_record-Keeps : (e : Governance.Evidence) → Keeps (provenance_record env stores e)
  unfolding provenance_record new_id utc_now fresh
  provenance_record-Keeps e s = ground arith

  pub enforce_policy-Keeps : (context : PolicyContext) → Keeps (enforce_policy env stores context)
  unfolding enforce_policy Governance.enforce evaluate provenance_record new_id utc_now fresh
  enforce_policy-Keeps context s = ground arith

  pub require_entity-Keeps : (id : String) → Keeps (require_entity env stores id)
  unfolding require_entity
  require_entity-Keeps id s = ground arith

  pub emit_org_event-Keeps :
      (id event_type : String) (payload : Fields)
      → Keeps (emit_org_event env stores id event_type payload)
  unfolding emit_org_event
  emit_org_event-Keeps id event_type payload = emit_event-Keeps _
