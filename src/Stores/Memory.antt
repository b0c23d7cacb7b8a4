-- ===== src/Stores/Memory.antt =====
-- src/fp/stores/memory.py: each in-memory store is one of the two generic stores with its key.
use foundation_protocol.Prelude.{String}
use foundation_protocol.Stores.Kv
use foundation_protocol.Stores.Kv.{KvStore}
use foundation_protocol.Stores.Kv.Laws.{IsKeyed, put-IsKeyed, get-keyed}
use foundation_protocol.Stores.Grouped
use foundation_protocol.Stores.Grouped.Index.{IsIndexed, put-IsIndexed, get-put, get-keyed_indexed}
use foundation_protocol.Stores.Grouped.Queries.{In-by_group_get}
use foundation_protocol.Stores.Interfaces.{
  KeyedStore, GroupedStore, EntityStore, OrganizationStore, MembershipStore, SessionStore,
  ActivityStore, ReceiptStore, SettlementStore, DisputeStore, ProvenanceStore,
}

abbrev keyed : {V : Type 0} (key_fn : V → String) → KeyedStore key_fn
keyed {V} key_fn = record {
  State = KvStore V;
  put = Kv.put key_fn;
  get = Kv.get;
  list = Kv.list;
  list_page = Kv.list_page;
  IsValid = IsKeyed key_fn;
  put-IsValid = λ s v h. put-IsKeyed v h;
  keyed = λ s k v h e. get-keyed h k v e;
  get-put = Kv.Laws.get-put key_fn;
}

abbrev grouped : {V : Type 0} (key_fn group_fn : V → String) → GroupedStore key_fn group_fn
grouped {V} key_fn group_fn = record {
  base = record {
    State = Grouped.GroupedStore V;
    put = Grouped.put key_fn group_fn;
    get = Grouped.get;
    list = Grouped.list;
    list_page = Grouped.list_page;
    IsValid = IsIndexed key_fn group_fn;
    put-IsValid = λ s v h. put-IsIndexed v h;
    keyed = λ s k v h e. get-keyed_indexed h k v e;
    get-put = get-put key_fn group_fn;
  };
  by_group = Grouped.by_group;
  by_group_page = Grouped.by_group_page;
  In-by_group = λ s g v h. In-by_group_get h g v;
}

abbrev pub in_memory_entities : EntityStore
in_memory_entities = keyed (λ entity. entity.entity_id)

abbrev pub in_memory_organizations : OrganizationStore
in_memory_organizations = keyed (λ organization. organization.organization_id)

abbrev pub in_memory_memberships : MembershipStore
in_memory_memberships =
    grouped (λ membership. membership.membership_id) (λ membership. membership.organization_id)

abbrev pub in_memory_sessions : SessionStore
in_memory_sessions = keyed (λ session. session.session_id)

abbrev pub in_memory_activities : ActivityStore
in_memory_activities = grouped (λ activity. activity.activity_id) (λ activity. activity.session_id)

abbrev pub in_memory_receipts : ReceiptStore
in_memory_receipts = keyed (λ receipt. receipt.receipt_id)

abbrev pub in_memory_settlements : SettlementStore
in_memory_settlements = keyed (λ settlement. settlement.settlement_id)

abbrev pub in_memory_disputes : DisputeStore
in_memory_disputes = keyed (λ dispute. dispute.dispute_id)

abbrev pub in_memory_provenance : ProvenanceStore
in_memory_provenance = keyed (λ entry. entry.record_id)
