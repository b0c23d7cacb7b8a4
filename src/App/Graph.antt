-- ===== src/App/Graph.antt =====
-- Entities, organizations and memberships of `FPServer` (src/fp/app/server.py). A change of roles asks
-- the policy engine first and is announced on the event stream of the organization.
use foundation_protocol.Prelude.{String, Option, none, List, [], ◌∷◌}
use foundation_protocol.Protocol.Errors.{Exec, pure, gets, ◌>>=◌, ◌>>◌}
use foundation_protocol.Protocol.Json.{str, arr, Items, nil, cons, Fields, end, field}
use foundation_protocol.Protocol.Models.Entities.{Entity}
use foundation_protocol.Protocol.Models.Organizations.{Organization, Membership}
use foundation_protocol.Stores.Paging.{sort_keys}
use foundation_protocol.Policy.{pre_role_change, PolicyContext}
use foundation_protocol.Graph.Entities
use foundation_protocol.Graph.Organizations
use foundation_protocol.Graph.Memberships
use foundation_protocol.App.State.{
  Environment, Stores, Call, utc_now, count, emit_org_event, enforce_policy, in_entities,
  in_memberships,
}

-- a list of texts as JSON
abbrev pub texts_json : List String → Items
texts_json [] = nil
texts_json (t ∷ ts) = cons (str t) (texts_json ts)

abbrev pub role_change : Option String → Fields → PolicyContext
role_change actor_entity_id payload = record {
  hook = pre_role_change;
  actor_entity_id = actor_entity_id;
  session_id = none;
  activity_id = none;
  operation = none;
  payload = payload;
}

module _ (env : Environment) (stores : Stores) where
  unfoldable pub register_entity : Entity → Call env stores Entity
  unfolding count Entities.upsert
  register_entity entity = do
    out ← in_entities env stores (Entities.upsert stores.entities entity)
    count env stores "entities.register"
    pure out

  -- The registry of organizations works on two of the stores.
  abbrev in_registry :
      {A : Type 0}
      → Exec (Organizations.State stores.entities stores.organizations) A
      → Call env stores A
  in_registry m s =
      let (r, t) = m (record { entity_state = s.entities; organization_state = s.organizations }) in
      (r, record s { entities = t.entity_state; organizations = t.organization_state })

  unfoldable pub create_organization : Organization → Call env stores Organization
  unfolding count Organizations.create
  create_organization organization = do
    out ← in_registry (Organizations.create stores.entities stores.organizations organization)
    count env stores "organizations.create"
    pure out

  -- What follows a decision (`…_decided`): the change of the registry, the count and the event.
  unfoldable pub record_change :
      Exec stores.memberships.base.State Membership
      → String
      → String
      → String
      → Fields
      → Call env stores Membership
  unfolding count emit_org_event
  record_change change name organization_id event_type payload = do
    out ← in_memberships env stores change
    count env stores name
    emit_org_event env stores organization_id event_type payload
    pure out

  unfoldable pub add_decided : Membership → Call env stores Membership
  unfolding Memberships.add record_change
  add_decided membership = do
    known ← gets (λ s. s.organizations)
    record_change (Memberships.add stores.organizations stores.memberships known membership)
        "memberships.add" membership.organization_id "membership.added"
        (field "membership_id" (str membership.membership_id) end)

  unfoldable pub add_membership : Membership → Option String → Call env stores Membership
  unfolding enforce_policy add_decided
  add_membership membership actor_entity_id = do
    enforce_policy env stores (
        role_change actor_entity_id (
          field "organization_id" (str membership.organization_id)
            (field "member_entity_id" (str membership.member_entity_id) end)))
    add_decided membership

  unfoldable pub remove_decided : String → String → Call env stores Membership
  unfolding utc_now Memberships.remove record_change
  remove_decided organization_id membership_id = do
    now ← utc_now env stores
    record_change (Memberships.remove stores.memberships organization_id membership_id now)
        "memberships.remove" organization_id "membership.removed"
        (field "membership_id" (str membership_id) end)

  unfoldable pub remove_membership : String → String → Option String → Call env stores Membership
  unfolding enforce_policy remove_decided
  remove_membership organization_id membership_id actor_entity_id = do
    enforce_policy env stores (
        role_change actor_entity_id (
          field "organization_id" (str organization_id)
            (field "membership_id" (str membership_id) end)))
    remove_decided organization_id membership_id

  abbrev pub roles_payload : String → String → List String → Fields
  roles_payload organization_id member_entity_id roles =
      field "organization_id" (str organization_id) (
        field "member_entity_id" (str member_entity_id)
          (field "roles" (arr (texts_json (sort_keys roles))) end))

  unfoldable pub grant_decided : String → String → List String → Call env stores Membership
  unfolding utc_now Memberships.grant_roles record_change
  grant_decided organization_id member_entity_id roles = do
    now ← utc_now env stores
    record_change
        (Memberships.grant_roles stores.memberships organization_id member_entity_id roles now)
        "memberships.roles.grant" organization_id "membership.roles.granted"
        (field "member_entity_id" (str member_entity_id) end)

  unfoldable pub grant_roles :
      String → String → List String → Option String → Call env stores Membership
  unfolding enforce_policy grant_decided
  grant_roles organization_id member_entity_id roles actor_entity_id = do
    enforce_policy env stores
        (role_change actor_entity_id (roles_payload organization_id member_entity_id roles))
    grant_decided organization_id member_entity_id roles

  unfoldable pub revoke_decided : String → String → List String → Call env stores Membership
  unfolding utc_now Memberships.revoke_roles record_change
  revoke_decided organization_id member_entity_id roles = do
    now ← utc_now env stores
    record_change
        (Memberships.revoke_roles stores.memberships organization_id member_entity_id roles now)
        "memberships.roles.revoke" organization_id "membership.roles.revoked"
        (field "member_entity_id" (str member_entity_id) end)

  unfoldable pub revoke_roles :
      String → String → List String → Option String → Call env stores Membership
  unfolding enforce_policy revoke_decided
  revoke_roles organization_id member_entity_id roles actor_entity_id = do
    enforce_policy env stores
        (role_change actor_entity_id (roles_payload organization_id member_entity_id roles))
    revoke_decided organization_id member_entity_id roles
