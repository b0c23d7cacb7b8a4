-- ===== src/Protocol/Models/Entities.antt =====
-- Entities: src/fp/protocol/models.py, from `EntityKind` to `Entity`. The function `init_…` of a class
-- is the check of its `__post_init__`.
use foundation_protocol.Prelude.{String, Bool, not, ◌||◌, Option, List, is_empty, ◌==◌}
use foundation_protocol.Protocol.Errors.{Result, ok, invalid_argument, check}
use foundation_protocol.Protocol.Json.{Fields}
use foundation_protocol.Protocol.Models.Signed.{require_non_empty}

pub data EntityKind : Type 0 where
  agent tool resource human organization institution service ui : EntityKind

pub record Identity : Type 0 where
  pub method : String
  pub key_refs : List String
  pub version : String
  pub issuer : Option String

unfoldable pub init_identity : Identity → Result Identity
unfolding require_non_empty
init_identity i =
    require_non_empty i.method
      (require_non_empty i.version (check (is_empty i.key_refs) invalid_argument (ok i)))

pub record CapabilitySummary : Type 0 where
  pub purpose : List String
  pub risk_tags : List String
  pub schema_hashes : List String
  pub price_policy_hints : List String

unfoldable pub init_capability_summary : CapabilitySummary → Result CapabilitySummary
init_capability_summary c = check (is_empty c.purpose) invalid_argument (ok c)

pub record PrivacyControl : Type 0 where
  pub owner : String
  pub default_visibility : String
  pub delegation_policy_ref : Option String

abbrev is_visibility : String → Bool
is_visibility v = v == "public" || v == "restricted" || v == "private"

unfoldable pub init_privacy_control : PrivacyControl → Result PrivacyControl
unfolding require_non_empty
init_privacy_control p =
    require_non_empty p.owner
      (check (not (is_visibility p.default_visibility)) invalid_argument (ok p))

pub record Entity : Type 0 where
  pub entity_id : String
  pub kind : EntityKind
  pub identity : Identity
  pub capability_summary : CapabilitySummary
  pub privacy : PrivacyControl
  pub display_name : Option String
  pub capability_refs : List String
  pub trust_refs : List String
  pub metadata : Fields

unfoldable pub init_entity : Entity → Result Entity
unfolding require_non_empty
init_entity e = require_non_empty e.entity_id (ok e)
