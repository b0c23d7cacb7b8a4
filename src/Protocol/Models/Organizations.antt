-- ===== src/Protocol/Models/Organizations.antt =====
-- Organizations and memberships: src/fp/protocol/models.py, from `OrganizationGovernance` to
-- `Membership`, with the delegations.
use foundation_protocol.Prelude.{ℕ, String, Bool, true, false, Option, List, is_empty}
use foundation_protocol.Protocol.Errors.{Result, ok, invalid_argument, check}
use foundation_protocol.Protocol.Models.Signed.{ℤ, is_negative, some_negative, require_non_empty}
use foundation_protocol.Protocol.Models.Entities.{Entity, EntityKind, organization}

pub data MembershipStatus : Type 0 where
  active inactive suspended revoked : MembershipStatus

pub record OrganizationGovernance : Type 0 where
  pub policy_refs : List String
  pub role_catalog : List String

unfoldable pub init_organization_governance : OrganizationGovernance → Result OrganizationGovernance
init_organization_governance g =
    check (is_empty g.policy_refs) invalid_argument
      (check (is_empty g.role_catalog) invalid_argument (ok g))

pub record Organization : Type 0 where
  pub organization_id : String
  pub entity : Entity
  pub governance : OrganizationGovernance
  pub created_at : ℕ

-- `kind is not EntityKind.ORGANIZATION`
abbrev pub not_organization : EntityKind → Bool
not_organization organization = false
not_organization _ = true

unfoldable pub init_organization : Organization → Result Organization
unfolding require_non_empty
init_organization o =
    require_non_empty o.organization_id
      (check (not_organization o.entity.kind) invalid_argument (ok o))

pub record DelegationSpendLimit : Type 0 where
  pub currency : String
  pub amount : ℤ

unfoldable pub init_spend_limit : DelegationSpendLimit → Result DelegationSpendLimit
unfolding require_non_empty
init_spend_limit l =
    require_non_empty l.currency (check (is_negative l.amount) invalid_argument (ok l))

pub record DelegationConstraints : Type 0 where
  pub spend_limit : Option DelegationSpendLimit
  pub max_token_limit : Option ℤ

unfoldable pub init_constraints : DelegationConstraints → Result DelegationConstraints
init_constraints c = check (some_negative c.max_token_limit) invalid_argument (ok c)

pub record Delegation : Type 0 where
  pub scope : List String
  pub constraints : DelegationConstraints
  pub expires_at : Option ℕ

unfoldable pub init_delegation : Delegation → Result Delegation
init_delegation d = check (is_empty d.scope) invalid_argument (ok d)

pub record Membership : Type 0 where
  pub membership_id : String
  pub organization_id : String
  pub member_entity_id : String
  pub roles : List String
  pub status : MembershipStatus
  pub delegations : List Delegation
  pub created_at : ℕ
  pub updated_at : ℕ

unfoldable pub init_membership : Membership → Result Membership
unfolding require_non_empty
init_membership m = require_non_empty m.membership_id (
    require_non_empty m.organization_id
      (require_non_empty m.member_entity_id (check (is_empty m.roles) invalid_argument (ok m))))
