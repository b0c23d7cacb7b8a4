-- ===== src/Graph/Relations.antt =====
-- src/fp/graph/relations.py
use foundation_protocol.Prelude.{
  ℕ, String, ◌≡◌, Bool, ◌||◌, Option, none, some, List, [], ◌∷◌, arith, ◌==◌, keep, ◌++◌,
  if◌then◌else◌,
}
use foundation_protocol.Dict
use foundation_protocol.Dict.{Dict}
use foundation_protocol.Dict.Laws.{get-put}

pub record Relationship : Type 0 where
  pub relation_id : String
  pub source_entity_id : String
  pub target_entity_id : String
  pub relation_type : String
  pub metadata : Dict String
  pub created_at : ℕ

pub record RelationshipGraph : Type 0 where
  pub relations : Dict Relationship

unfoldable pub add : RelationshipGraph → Relationship → RelationshipGraph
add g relation = record { relations = Dict.put g.relations relation.relation_id relation }

unfoldable pub get : RelationshipGraph → String → Option Relationship
get g relation_id = Dict.get g.relations relation_id

abbrev pub touches : String → Relationship → Bool
touches entity_id r = r.source_entity_id == entity_id || r.target_entity_id == entity_id

unfoldable pub list_for_entity : RelationshipGraph → String → List Relationship
list_for_entity g entity_id = keep (touches entity_id) (Dict.values g.relations)

-- The relations of an entity after one is added under a new id: the same ones, and the new one at
-- the end if the entity is its source or its target.
put_new-keep :
    (d : Dict Relationship) (p : Relationship → Bool) (k : String) (r : Relationship)
    → Dict.get d k ≡ none
    → keep p (Dict.values (Dict.put d k r)) ≡ keep p (Dict.values d) ++ (if p r then r ∷ [] else [])
unfolding Dict.get Dict.put
put_new-keep [] p k r fresh = ground arith
put_new-keep ((j, q) ∷ d) p k r fresh = ground (arith, put_new-keep d p k r)

-- Adding a relation under a new id appends it to the relations of its source and of its target, and
-- leaves the relations of other entities as they were.
pub list_for_entity-add :
    (g : RelationshipGraph) (r : Relationship) (entity_id : String)
    → get g r.relation_id ≡ none
    → list_for_entity (add g r) entity_id
      ≡ list_for_entity g entity_id ++ (if touches entity_id r then r ∷ [] else [])
unfolding get add list_for_entity
list_for_entity-add g r entity_id fresh =
    put_new-keep g.relations (touches entity_id) r.relation_id r fresh

pub get-add :
    (g : RelationshipGraph) (r : Relationship) (id : String)
    → get (add g r) id ≡ (if r.relation_id == id then some r else get g id)
unfolding get add
get-add g r id = get-put g.relations r.relation_id id r
