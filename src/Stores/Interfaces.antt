-- ===== src/Stores/Interfaces.antt =====
-- src/fp/stores/interfaces.py: what the runtime asks of a store. The laws are what it relies on; a
-- client takes such a record as a parameter, and Stores/Memory.antt fills each. Two protocols leave
-- an operation out that the record has: `ProvenanceStore` has no `get`, and `MembershipStore` no `list`
-- over all organizations; no engine calls these.
use foundation_protocol.Prelude.{ℕ, String, ◌≡◌, ◌↔◌, Option, some, List, ◌==◌, if◌then◌else◌}
use foundation_protocol.Protocol.Errors.{Result}
use foundation_protocol.Protocol.Models.Entities.{Entity}
use foundation_protocol.Protocol.Models.Organizations.{Organization, Membership}
use foundation_protocol.Protocol.Models.Sessions.{Session}
use foundation_protocol.Protocol.Models.Activities.{Activity}
use foundation_protocol.Protocol.Models.Economy.{Receipt, Settlement, Dispute, ProvenanceRecord}
use foundation_protocol.Stores.Grouped.Queries.{In}

pub record KeyedStore {V : Type 0} (key_fn : V → String) : Type 1 where
  pub State : Type 0
  pub put : State → V → State
  pub get : State → String → Option V
  pub list : State → List V
  pub list_page : State → ℕ → Option String → Result (List V × Option String)
  -- what holds of every state that a store reaches
  pub IsValid : State → Type 0
  pub put-IsValid : (s : State) (v : V) → IsValid s → IsValid (put s v)
  -- a value stands under its own key
  pub keyed : (s : State) (k : String) (v : V) → IsValid s → get s k ≡ some v → key_fn v ≡ k
  -- a value is read back under its key, and the other keys are left alone
  pub get-put :
      (s : State) (v : V) (k : String)
      → get (put s v) k ≡ (if key_fn v == k then some v else get s k)

pub record GroupedStore {V : Type 0} (key_fn group_fn : V → String) : Type 1 where
  pub base : KeyedStore key_fn
  pub by_group : base.State → String → List V
  pub by_group_page : base.State → String → ℕ → Option String → Result (List V × Option String)
  -- a group lists exactly the stored values that belong to it
  pub In-by_group :
      (s : base.State) (g : String) (v : V)
      → base.IsValid s
      → In v (by_group s g) ↔ ((base.get s (key_fn v) ≡ some v) × (group_fn v ≡ g))

abbrev pub EntityStore : Type 1
EntityStore = KeyedStore {V = Entity} (λ entity. entity.entity_id)

abbrev pub OrganizationStore : Type 1
OrganizationStore = KeyedStore {V = Organization} (λ organization. organization.organization_id)

abbrev pub MembershipStore : Type 1
MembershipStore =
    GroupedStore {V = Membership} (λ membership. membership.membership_id)
      (λ membership. membership.organization_id)

abbrev pub SessionStore : Type 1
SessionStore = KeyedStore {V = Session} (λ session. session.session_id)

abbrev pub ActivityStore : Type 1
ActivityStore =
    GroupedStore {V = Activity} (λ activity. activity.activity_id) (λ activity. activity.session_id)

abbrev pub ReceiptStore : Type 1
ReceiptStore = KeyedStore {V = Receipt} (λ receipt. receipt.receipt_id)

abbrev pub SettlementStore : Type 1
SettlementStore = KeyedStore {V = Settlement} (λ settlement. settlement.settlement_id)

abbrev pub DisputeStore : Type 1
DisputeStore = KeyedStore {V = Dispute} (λ dispute. dispute.dispute_id)

abbrev pub ProvenanceStore : Type 1
ProvenanceStore = KeyedStore {V = ProvenanceRecord} (λ entry. entry.record_id)
