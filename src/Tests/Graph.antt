-- ===== src/Tests/Graph.antt =====
-- The registries over the in-memory stores.
use foundation_protocol.Prelude.{
  ◌≡◌, refl, ◌⊎◌, ◌&&◌, none, some, List, [], ◌∷◌, keep, take, All, arith,
}
use foundation_protocol.Prelude.Texts.{codes, strip, lower, is_blank}
use foundation_protocol.Dict
use foundation_protocol.Protocol.Errors.{ok, err, fp_error, already_exists}
use foundation_protocol.Protocol.Models.Organizations.{Organization, init_membership}
use foundation_protocol.Stores.Kv
use foundation_protocol.Stores.Grouped
use foundation_protocol.Stores.Memory.{
  in_memory_entities, in_memory_organizations, in_memory_memberships,
}
use foundation_protocol.Graph.Entities.{search, search-first, has_kind, is_inside, haystack}
use foundation_protocol.Graph.Organizations.{State, create, create_outcome}
use foundation_protocol.Graph.Memberships.{
  MembershipCall, add_call, remove_call, grant_call, revoke_call, run_all,
}
use foundation_protocol.Graph.Memberships.Changes.{IsBuilt}
use foundation_protocol.Graph.Memberships.Roles.{AllHaveRoles, run_all-AllHaveRoles}
use foundation_protocol.Graph.Memberships.Revoked.{IsRevoked, run_all-IsRevoked}
use foundation_protocol.Graph.Relations.{Relationship, RelationshipGraph}
use foundation_protocol.Tests.Samples.{
  acme, acme_entity, ann_at_acme, bob_at_acme, organization_states, membership_states,
  membership_states-IsIndexed,
}

abbrev calls : List MembershipCall
calls =
    add_call (record ann_at_acme { membership_id = "m3"; member_entity_id = "cat" })
    ∷ grant_call "org" "bob" ("admin" ∷ []) 2
    ∷ revoke_call "org" "cat" ("member" ∷ []) 3
    ∷ remove_call "org" "m2" 4
    ∷ []

calls-IsBuilt : All IsBuilt calls
unfolding init_membership is_blank
calls-IsBuilt = (refl, (tt, (tt, (tt, tt))))

samples-AllHaveRoles : AllHaveRoles in_memory_memberships membership_states
unfolding Grouped.get Grouped.put Dict.get Dict.put
samples-AllHaveRoles = record { each = λ id m e. ground (arith, e) }

run_all-AllHaveRoles_example : AllHaveRoles in_memory_memberships (
    run_all in_memory_organizations in_memory_memberships organization_states calls
      membership_states)
run_all-AllHaveRoles_example =
    run_all-AllHaveRoles in_memory_organizations in_memory_memberships organization_states calls
      membership_states membership_states-IsIndexed calls-IsBuilt samples-AllHaveRoles

bob-IsRevoked : IsRevoked in_memory_memberships membership_states "m2" ("member" ∷ [])
unfolding Grouped.get Grouped.put Dict.get Dict.put
bob-IsRevoked = record { membership = bob_at_acme; stored = refl; over = refl; same_roles = refl }

run_all-IsRevoked_example :
    IsRevoked in_memory_memberships
      (run_all in_memory_organizations in_memory_memberships organization_states calls
        membership_states)
      "m2"
      ("member" ∷ [])
run_all-IsRevoked_example =
    run_all-IsRevoked in_memory_organizations in_memory_memberships organization_states calls
      membership_states "m2" ("member" ∷ []) membership_states-IsIndexed calls-IsBuilt bob-IsRevoked

abbrev entity_states : in_memory_entities.State
entity_states = Kv.put (λ e. e.entity_id) Kv.empty acme_entity

search-first_example :
    search lower in_memory_entities entity_states " TRADE " none 1
    ≡ take 1 (
        keep
          (λ e. has_kind none e && is_inside (lower (strip (codes " TRADE "))) (haystack lower e))
          (Kv.list entity_states))
search-first_example = search-first lower in_memory_entities entity_states " TRADE " none 0

abbrev both : State in_memory_entities in_memory_organizations
both = record { entity_state = entity_states; organization_state = organization_states }

create_outcome_example :
    let after = create in_memory_entities in_memory_organizations acme both in
    ((after ≡ (err (fp_error already_exists), both))
      × ((old : Organization) × (Kv.get organization_states "org" ≡ some old)))
    ⊎ ((Kv.get organization_states "org" ≡ none)
        × (after.0 ≡ ok acme)
        × (Kv.get after.1.organization_state "org" ≡ some acme)
        × (Kv.get after.1.entity_state "acme" ≡ some acme_entity))
create_outcome_example = create_outcome in_memory_entities in_memory_organizations both acme

abbrev relation : Relationship
relation = record {
  relation_id = "r1";
  source_entity_id = "ann";
  target_entity_id = "bob";
  relation_type = "trusts";
  metadata = [];
  created_at = 1;
}

abbrev no_relations : RelationshipGraph
no_relations = record { relations = [] }
