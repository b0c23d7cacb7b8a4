-- ===== src/App/Effects/Graph.antt =====
-- A call of the server on the graph is one call of a registry, or changes nothing.
use foundation_protocol.Prelude.{arith, String, inl, inr, Option, List, Option-cases}
use foundation_protocol.Protocol.Models.Entities.{Entity}
use foundation_protocol.Protocol.Models.Organizations.{Organization, Membership}
use foundation_protocol.Runtime.Revise.{save}
use foundation_protocol.Graph.Entities
use foundation_protocol.Graph.Organizations
use foundation_protocol.Graph.Memberships
use foundation_protocol.Graph.Memberships.{MembershipCall}
use foundation_protocol.App.State.{Environment, Stores, ServerState, utc_now}
use foundation_protocol.App.Quiet.{core, count-Keeps, emit_org_event-Keeps}
use foundation_protocol.App.Effects.Policy.{behind_policy}
use foundation_protocol.App.Steps.{Step, stay, register, found, membership}
use foundation_protocol.Protocol.Json.{str, end, field}
use foundation_protocol.App.Graph.{
  role_change, roles_payload, record_change, add_decided, remove_decided, grant_decided,
  revoke_decided, register_entity, create_organization, add_membership, remove_membership,
  grant_roles, revoke_roles,
}
use foundation_protocol.App.Calls.{
  GraphCall, register_call, found_call, add_call, remove_call, grant_call, revoke_call, run_graph,
}

module _ (env : Environment) (stores : Stores) (s : ServerState stores) where
  register_effect : (e : Entity) → Step stores (core s) (core (register_entity env stores e s).1)
  unfolding register_entity Entities.upsert save
  register_effect e = register {a = core s} e (ground (arith, count-Keeps env stores))

  found_effect :
      (o : Organization) → Step stores (core s) (core (create_organization env stores o s).1)
  unfolding create_organization Organizations.create save
  found_effect o =
      elim (Option-cases (stores.organizations.get s.organizations o.organization_id)) [
        | inr (old, p) ↦ stay (ground (arith, p))
        | inl p ↦ found {a = core s} o (ground (arith, p, count-Keeps env stores))
      ]

  add_decided_effect : (m : Membership) → Step stores (core s) (core (add_decided env stores m s).1)
  unfolding add_decided record_change utc_now Memberships.run
  add_decided_effect m =
      membership {a = core s} (Memberships.add_call m)
        (ground (arith, count-Keeps env stores, emit_org_event-Keeps env stores))

  remove_decided_effect :
      (id m : String) → Step stores (core s) (core (remove_decided env stores id m s).1)
  unfolding remove_decided record_change utc_now Memberships.run
  remove_decided_effect id m =
      membership {a = core s} (Memberships.remove_call id m (env.utc_now s.readings))
        (ground (arith, count-Keeps env stores, emit_org_event-Keeps env stores))

  grant_decided_effect :
      (id e : String) (roles : List String)
      → Step stores (core s) (core (grant_decided env stores id e roles s).1)
  unfolding grant_decided record_change utc_now Memberships.run
  grant_decided_effect id e roles =
      membership {a = core s} (Memberships.grant_call id e roles (env.utc_now s.readings))
        (ground (arith, count-Keeps env stores, emit_org_event-Keeps env stores))

  revoke_decided_effect :
      (id e : String) (roles : List String)
      → Step stores (core s) (core (revoke_decided env stores id e roles s).1)
  unfolding revoke_decided record_change utc_now Memberships.run
  revoke_decided_effect id e roles =
      membership {a = core s} (Memberships.revoke_call id e roles (env.utc_now s.readings))
        (ground (arith, count-Keeps env stores, emit_org_event-Keeps env stores))

module _ (env : Environment) (stores : Stores) (s : ServerState stores) where
  add_effect :
      (m : Membership) (actor : Option String)
      → Step stores (core s) (core (add_membership env stores m actor s).1)
  unfolding add_membership
  add_effect m actor =
      behind_policy env stores s
        (role_change actor (
          field "organization_id" (str m.organization_id)
            (field "member_entity_id" (str m.member_entity_id) end)))
        (add_decided env stores m) (Step stores) (λ a b. stay)
        λ t same. add_decided_effect env stores t m

  remove_effect :
      (id m : String) (actor : Option String)
      → Step stores (core s) (core (remove_membership env stores id m actor s).1)
  unfolding remove_membership
  remove_effect id m actor =
      behind_policy env stores s
        (role_change actor (field "organization_id" (str id) (field "membership_id" (str m) end)))
        (remove_decided env stores id m) (Step stores) (λ a b. stay)
        λ t same. remove_decided_effect env stores t id m

  grant_effect :
      (id e : String) (roles : List String) (actor : Option String)
      → Step stores (core s) (core (grant_roles env stores id e roles actor s).1)
  unfolding grant_roles
  grant_effect id e roles actor =
      behind_policy env stores s (role_change actor (roles_payload env stores id e roles))
        (grant_decided env stores id e roles) (Step stores) (λ a b. stay)
        λ t same. grant_decided_effect env stores t id e roles

  revoke_effect :
      (id e : String) (roles : List String) (actor : Option String)
      → Step stores (core s) (core (revoke_roles env stores id e roles actor s).1)
  unfolding revoke_roles
  revoke_effect id e roles actor =
      behind_policy env stores s (role_change actor (roles_payload env stores id e roles))
        (revoke_decided env stores id e roles) (Step stores) (λ a b. stay)
        λ t same. revoke_decided_effect env stores t id e roles

  pub run_graph_effect : (c : GraphCall) → Step stores (core s) (core (run_graph env stores c s))
  unfolding run_graph
  run_graph_effect (register_call e) = register_effect env stores s e
  run_graph_effect (found_call o) = found_effect env stores s o
  run_graph_effect (add_call m actor) = add_effect m actor
  run_graph_effect (remove_call id m actor) = remove_effect id m actor
  run_graph_effect (grant_call id e roles actor) = grant_effect id e roles actor
  run_graph_effect (revoke_call id e roles actor) = revoke_effect id e roles actor
