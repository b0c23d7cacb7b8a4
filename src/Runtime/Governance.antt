-- ===== src/Runtime/Governance.antt =====
-- src/fp/runtime/modules/governance_module.py: a policy decision is asked for, recorded and enforced.
-- The text that `str` gives for an item, and whether the text of a number is a zero, are parameters.
use foundation_protocol.Prelude.{
  String, Bool, true, false, not, ◌||◌, Option, none, some, List, [], ◌∷◌, ◌++◌, if◌then◌else◌,
  ◌==◌,
}
use Prim.Native.String.{◌++◌ as cat}
use foundation_protocol.Protocol.Errors.{Exec, policy_denied, raise_if, ◌>>=◌, ◌>>◌}
use foundation_protocol.Protocol.Json.{
  Json, null, bool, num, str, arr, obj, Items, nil, cons, Fields, end, field,
}
use foundation_protocol.Protocol.Models.Economy.{ProvenanceRecord}
use foundation_protocol.Policy.{hook_value, PolicyContext, PolicyDecision}

-- The arguments of the recorder.
pub record Evidence : Type 0 where
  pub subject_refs : List String
  pub policy_refs : List String
  pub outcome : String
  pub signer_ref : String
  pub metadata : Fields

-- `text.endswith(suffix)`
unfoldable ends_with : String → String → Bool
ends_with suffix String.[] = suffix == ""
ends_with suffix (String.◌∷◌ c text) = suffix == String.◌∷◌ c text || ends_with suffix text

pub record Texts : Type 0 where
  -- `str(value)`
  pub str_of : Json → String
  -- `not value` of a number
  pub is_zero : String → Bool

-- `[text] if text else []`
abbrev pub non_empty : Option String → List String
non_empty none = []
non_empty (some text) = if text == "" then [] else text ∷ []

module _ (texts : Texts) where
  -- `bool(value)`
  abbrev truthy : Json → Bool
  truthy null = false
  truthy (bool b) = b
  truthy (num n) = not (texts.is_zero n)
  truthy (str s) = not (s == "")
  truthy (arr nil) = false
  truthy (arr _) = true
  truthy (obj end) = false
  truthy (obj _) = true

  abbrev item_refs : Items → List String
  item_refs nil = []
  item_refs (cons v items) = if truthy v then texts.str_of v ∷ item_refs items else item_refs items

  abbrev text_ref : Json → List String
  text_ref (str s) = non_empty (some s)
  text_ref _ = []

  abbrev list_refs : Json → List String
  list_refs (arr items) = item_refs items
  list_refs _ = []

  -- The loop over the payload.
  unfoldable pub payload_refs : Fields → List String
  unfolding ends_with
  payload_refs end = []
  payload_refs (field key value payload) =
      (if ends_with "_id" key || ends_with "_ref" key
        then text_ref value
        else if ends_with "_refs" key
        then list_refs value
        else [])
      ++ payload_refs payload

  abbrev or_else : List String → List String → List String
  or_else [] other = other
  or_else (s ∷ ss) other = s ∷ ss

  -- The subjects of a decision: the ids that are given, or those of the payload, or the hook.
  unfoldable pub subject_refs : PolicyContext → List String
  unfolding payload_refs hook_value
  subject_refs context =
      or_else
        (non_empty context.session_id
          ++ (non_empty context.activity_id ++ non_empty context.actor_entity_id))
        (or_else (payload_refs context.payload) (cat "policy-hook:" (hook_value context.hook) ∷ []))

  abbrev pub policy_or_default : Option String → String
  policy_or_default none = "policy:default"
  policy_or_default (some ref) = if ref == "" then "policy:default" else ref

  unfoldable pub evidence : PolicyContext → PolicyDecision → Evidence
  unfolding subject_refs hook_value
  evidence context decision = record {
    subject_refs = subject_refs context;
    policy_refs = policy_or_default decision.policy_ref ∷ [];
    outcome = if decision.allowed then "allowed" else "denied";
    signer_ref = "fp:system:policy-engine";
    metadata =
        field "decision_id" (str decision.decision_id)
          (field "reason" (str decision.reason) (field "hook" (str (hook_value context.hook)) end));
  }

  module _ {S : Type 0} (evaluate : PolicyContext → Exec S PolicyDecision)
      (recorder : Evidence → Exec S ProvenanceRecord) where
    unfoldable pub enforce : PolicyContext → Exec S (Unit {0})
    unfolding evidence
    enforce context = do
      decision ← evaluate context
      recorder (evidence context decision)
      raise_if (not decision.allowed) policy_denied
