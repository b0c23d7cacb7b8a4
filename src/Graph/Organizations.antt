-- ===== src/Graph/Organizations.antt =====
-- src/fp/graph/organizations.py: the registry of organizations.
use foundation_protocol.Prelude.{
  ℕ, String, ◌≡◌, ◌⊎◌, inl, inr, eq_refl, Option-cases, not, none, some, arith, is_none,
}
use foundation_protocol.Protocol.Errors.{
  ok, err, Exec, fp_error, already_exists, invalid_argument, lift, zoom, raise_if, gets, pure,
  ◌>>=◌, ◌>>◌,
}
use foundation_protocol.Protocol.Models.Entities.{Entity}
use foundation_protocol.Protocol.Models.Organizations.{
  Organization, OrganizationGovernance, not_organization, init_organization,
}
use foundation_protocol.Stores.Interfaces.{EntityStore, OrganizationStore}
use foundation_protocol.Runtime.Revise.{fetch, save}

module _ (entities : EntityStore) (organizations : OrganizationStore) where
  -- the states of the two stores
  pub record State : Type 0 where
    pub entity_state : entities.State
    pub organization_state : organizations.State

  abbrev in_entities : {A : Type 0} → Exec entities.State A → Exec State A
  in_entities = zoom (λ s. s.entity_state) (λ s t. record s { entity_state = t })

  abbrev in_organizations : {A : Type 0} → Exec organizations.State A → Exec State A
  in_organizations = zoom (λ s. s.organization_state) (λ s t. record s { organization_state = t })

  unfoldable pub create : Organization → Exec State Organization
  unfolding save
  create organization = do
    existing ← gets (λ s. organizations.get s.organization_state organization.organization_id)
    raise_if (not (is_none existing)) already_exists
    in_entities (save entities organization.entity)
    in_organizations (save organizations organization)
    pure organization

  unfoldable pub create_from_entity :
      String → Entity → OrganizationGovernance → ℕ → Exec State Organization
  unfolding create
  create_from_entity organization_id entity governance now = do
    raise_if (not_organization entity.kind) invalid_argument
    organization ← lift (
        init_organization (record {
          organization_id = organization_id;
          entity = entity;
          governance = governance;
          created_at = now;
        }))
    create organization

  unfoldable pub get : String → Exec State Organization
  unfolding fetch
  get organization_id = in_organizations (fetch organizations organization_id)

module _ (entities : EntityStore) (organizations : OrganizationStore)
    (s : State entities organizations) (o : Organization) where
  -- Creating an organization raises ALREADY_EXISTS and changes neither store where its id is in
  -- use; otherwise it returns the organization, which is then stored under its id, and its entity
  -- under the entity's id.
  pub create_outcome :
      let after = create entities organizations o s in
      ((after ≡ (err (fp_error already_exists), s))
        × ((old : Organization) × (organizations.get s.organization_state o.organization_id
              ≡ some old)))
      ⊎ ((organizations.get s.organization_state o.organization_id ≡ none)
          × (after.0 ≡ ok o)
          × (organizations.get after.1.organization_state o.organization_id ≡ some o)
          × (entities.get after.1.entity_state o.entity.entity_id ≡ some o.entity))
  unfolding create
  create_outcome = elim (Option-cases (organizations.get s.organization_state o.organization_id)) [
    | inr (old, p) ↦ inl (ground (arith, p), (old, p))
    | inl p ↦ inr (
      p,
      ground (arith, p),
      ground (
        arith,
        p,
        organizations.get-put s.organization_state o o.organization_id,
        eq_refl o.organization_id,
      ),
      ground (
        arith,
        p,
        entities.get-put s.entity_state o.entity o.entity.entity_id,
        eq_refl o.entity.entity_id,
      ),
    )
  ]
