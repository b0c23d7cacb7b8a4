-- ===== src/Tests/Samples.antt =====
-- Small objects and stores for the examples.
use foundation_protocol.Prelude.{String, none, some, [], ◌∷◌}
use foundation_protocol.Protocol.Json.{end}
use foundation_protocol.Protocol.Models.Sessions
use foundation_protocol.Protocol.Models.Sessions.{Session, SessionBudget}
use foundation_protocol.Protocol.Models.Activities
use foundation_protocol.Protocol.Models.Activities.{Activity}
use foundation_protocol.Protocol.Models.Events.{FpEvent}
use foundation_protocol.Protocol.Models.Organizations
use foundation_protocol.Protocol.Models.Organizations.{
  Membership, Organization, OrganizationGovernance,
}
use foundation_protocol.Protocol.Models.Entities.{Entity, organization}
use foundation_protocol.Stores.Kv
use foundation_protocol.Stores.Kv.Laws.{IsKeyed-empty, put-IsKeyed}
use foundation_protocol.Stores.Grouped
use foundation_protocol.Stores.Grouped.Index.{IsIndexed-empty, put-IsIndexed}
use foundation_protocol.Stores.Memory.{
  in_memory_sessions, in_memory_activities, in_memory_memberships, in_memory_organizations,
}
use foundation_protocol.Runtime.Sessions.{NewSession}
use foundation_protocol.Runtime.Activities.{NewActivity}

abbrev pub new_session : NewSession
new_session = record {
  session_id = "s1";
  participants = "ann" ∷ "bob" ∷ [];
  roles = ("ann", "owner" ∷ []) ∷ [];
  policy_ref = none;
  budget = none;
  metadata = none;
  created_at = 1;
  updated_at = 1;
}

abbrev pub closed_session : Session
closed_session = record {
  session_id = "s2";
  participants = "ann" ∷ "bob" ∷ [];
  roles = ("ann", "owner" ∷ []) ∷ ("bob", "member" ∷ []) ∷ [];
  state = Sessions.closed;
  policy_ref = none;
  budget = record { spend_limit = none; token_limit = none };
  created_at = 1;
  updated_at = 2;
  metadata = end;
}

abbrev pub active_session : Session
active_session = record closed_session { session_id = "s3"; state = Sessions.active }

abbrev pub session_states : in_memory_sessions.State
session_states =
    Kv.put (λ s. s.session_id) (Kv.put (λ s. s.session_id) Kv.empty closed_session) active_session

pub session_states-IsKeyed : in_memory_sessions.IsValid session_states
session_states-IsKeyed =
    put-IsKeyed active_session (put-IsKeyed closed_session (IsKeyed-empty (λ s. s.session_id)))

abbrev pub new_activity : NewActivity
new_activity = record {
  activity_id = "a9";
  session_id = "s3";
  owner_entity_id = "ann";
  initiator_entity_id = "bob";
  operation = "plan";
  input_payload = end;
  created_at = 1;
  updated_at = 1;
}

abbrev pub working_activity : Activity
working_activity = record {
  activity_id = "a1";
  session_id = "s3";
  owner_entity_id = "ann";
  initiator_entity_id = "bob";
  state = Activities.working;
  operation = some "plan";
  input_payload = end;
  result_payload = none;
  result_ref = none;
  status_message = none;
  error = none;
  created_at = 1;
  updated_at = 1;
}

abbrev pub done_activity : Activity
done_activity = record working_activity { activity_id = "a2"; state = Activities.completed }

abbrev pub activity_states : in_memory_activities.base.State
activity_states =
    Grouped.put (λ a. a.activity_id) (λ a. a.session_id)
      (Grouped.put (λ a. a.activity_id) (λ a. a.session_id) Grouped.empty done_activity)
      working_activity

pub activity_states-IsIndexed : in_memory_activities.base.IsValid activity_states
activity_states-IsIndexed =
    put-IsIndexed working_activity
      (put-IsIndexed done_activity (IsIndexed-empty (λ a. a.activity_id) (λ a. a.session_id)))

abbrev pub event : String → FpEvent
event id = record {
  event_id = id;
  event_type = "activity.updated";
  session_id = "s3";
  producer_entity_id = "ann";
  occurred_at = 1;
  activity_id = some "a1";
  trace_id = none;
  causation_id = none;
  payload = end;
  policy_ref = none;
  evidence_refs = [];
}

abbrev pub acme_entity : Entity
acme_entity = record {
  entity_id = "acme";
  kind = organization;
  identity = record { method = "key"; key_refs = "k" ∷ []; version = "1"; issuer = none };
  capability_summary = record {
    purpose = "Trade" ∷ [];
    risk_tags = [];
    schema_hashes = [];
    price_policy_hints = [];
  };
  privacy = record { owner = "ann"; default_visibility = "public"; delegation_policy_ref = none };
  display_name = some "Acme";
  capability_refs = [];
  trust_refs = [];
  metadata = end;
}

abbrev pub acme : Organization
acme = record {
  organization_id = "org";
  entity = acme_entity;
  governance = record { policy_refs = "p" ∷ []; role_catalog = "member" ∷ [] };
  created_at = 1;
}

abbrev pub ann_at_acme : Membership
ann_at_acme = record {
  membership_id = "m1";
  organization_id = "org";
  member_entity_id = "ann";
  roles = "member" ∷ [];
  status = Organizations.active;
  delegations = [];
  created_at = 1;
  updated_at = 1;
}

abbrev pub bob_at_acme : Membership
bob_at_acme = record ann_at_acme {
  membership_id = "m2";
  member_entity_id = "bob";
  status = Organizations.revoked;
}

abbrev pub organization_states : in_memory_organizations.State
organization_states = Kv.put (λ o. o.organization_id) Kv.empty acme

abbrev pub membership_states : in_memory_memberships.base.State
membership_states =
    Grouped.put (λ m. m.membership_id) (λ m. m.organization_id)
      (Grouped.put (λ m. m.membership_id) (λ m. m.organization_id) Grouped.empty bob_at_acme)
      ann_at_acme

pub membership_states-IsIndexed : in_memory_memberships.base.IsValid membership_states
membership_states-IsIndexed =
    put-IsIndexed ann_at_acme
      (put-IsIndexed bob_at_acme (IsIndexed-empty (λ m. m.membership_id) (λ m. m.organization_id)))
