-- ===== src/App/Economy.antt =====
-- Metering, receipts, settlements, disputes and the audit of `FPServer` (src/fp/app/server.py).
use foundation_protocol.Prelude.{String, Option, none, some, List, [], ◌∷◌, is_none}
use foundation_protocol.Protocol.Errors.{
  Exec, not_found, lift, pure, gets, raise_if, zoom, ◌>>=◌, ◌>>◌,
}
use foundation_protocol.Protocol.Json.{Json, null, str, arr, Fields, end, field}
use foundation_protocol.Protocol.Models.Signed.{ℤ}
use foundation_protocol.Protocol.Models.Events.{FpEvent}
use foundation_protocol.Protocol.Models.Economy.{
  MeterRecord, Receipt, Settlement, Dispute, ProvenanceRecord,
}
use foundation_protocol.Stores.Events
use foundation_protocol.Runtime.Revise.{fetch, save}
use foundation_protocol.Runtime.Streams.{stream_key}
use foundation_protocol.Policy.{pre_settle, PolicyContext}
use foundation_protocol.Economy.Services
use foundation_protocol.Economy.Receipts
use foundation_protocol.App.State.{
  Environment, Stores, ServerState, Call, fresh, utc_now, count, emit_event, enforce_policy,
  in_activities,
}
use foundation_protocol.App.Start.{activity_event}
use foundation_protocol.App.Graph.{texts_json}
use foundation_protocol.App.Sessions.{or_null}

-- `export_audit_bundle`, whose objects are turned into JSON by `asdict`
pub record AuditBundle : Type 0 where
  pub session_id : String
  pub events : List FpEvent
  pub provenance : List ProvenanceRecord
  pub receipts : List Receipt
  pub settlements : List Settlement

module _ (env : Environment) (stores : Stores) where
  abbrev in_receipts : {A : Type 0} → Exec stores.receipts.State A → Call env stores A
  in_receipts = zoom (λ s. s.receipts) (λ s t. record s { receipts = t })

  abbrev in_settlements : {A : Type 0} → Exec stores.settlements.State A → Call env stores A
  in_settlements = zoom (λ s. s.settlements) (λ s t. record s { settlements = t })

  abbrev in_disputes : {A : Type 0} → Exec stores.disputes.State A → Call env stores A
  in_disputes = zoom (λ s. s.disputes) (λ s t. record s { disputes = t })

  unfoldable pub meter_record :
      String → String → ℤ → String → Option Fields → Call env stores MeterRecord
  unfolding fresh utc_now Services.meter
  meter_record subject_ref unit quantity metering_policy_ref metadata = do
    uuid ← fresh env stores
    now ← utc_now env stores
    lift (Services.meter subject_ref unit quantity metering_policy_ref metadata uuid now)

  -- The receipt is stored before its activity is looked up.
  unfoldable pub receipts_issue : String → String → List MeterRecord → Call env stores Receipt
  unfolding fresh utc_now Receipts.issue save fetch emit_event
  receipts_issue activity_id provider_entity_id meter_records = do
    uuid ← fresh env stores
    now ← utc_now env stores
    service ← gets (λ s. s.receipt_service)
    receipt ← lift (
        Receipts.issue env.signatures service activity_id provider_entity_id meter_records uuid now)
    in_receipts (save stores.receipts receipt)
    activity ← in_activities env stores (fetch stores.activities.base activity_id)
    emit_event env stores (
        activity_event env stores "receipt.issued" activity.session_id activity_id
          provider_entity_id (field "receipt_id" (str receipt.receipt_id) end))
    pure receipt

  -- `for receipt_ref in receipt_refs: … raise`
  unfoldable pub require_receipts : List String → Call env stores (Unit {0})
  require_receipts [] = pure tt
  require_receipts (r ∷ refs) = do
    found ← gets (λ s. stores.receipts.get s.receipts r)
    raise_if (is_none found) not_found
    require_receipts refs

  abbrev or_null_amount : Option ℤ → Json
  or_null_amount none = null
  or_null_amount (some amount) = env.amount_json amount

  -- `settlements_create` behind the decision of the policy engine
  unfoldable pub settle_decided :
      List String → String → Option ℤ → Option String → Call env stores Settlement
  unfolding fresh utc_now Services.settle save count
  settle_decided receipt_refs settlement_ref amount currency = do
    uuid ← fresh env stores
    now ← utc_now env stores
    settlement ← lift (Services.settle receipt_refs settlement_ref amount currency uuid now)
    in_settlements (save stores.settlements settlement)
    count env stores "settlements.create"
    pure settlement

  abbrev pub settlement_request :
      List String → Option ℤ → Option String → Option String → PolicyContext
  settlement_request receipt_refs amount currency actor_entity_id = record {
    hook = pre_settle;
    actor_entity_id = actor_entity_id;
    session_id = none;
    activity_id = none;
    operation = none;
    payload =
        field "receipt_refs" (arr (texts_json receipt_refs))
          (field "amount" (or_null_amount amount) (field "currency" (or_null currency) end));
  }

  unfoldable pub settlements_create :
      List String → String → Option ℤ → Option String → Option String → Call env stores Settlement
  unfolding require_receipts enforce_policy settle_decided
  settlements_create receipt_refs settlement_ref amount currency actor_entity_id = do
    require_receipts receipt_refs
    enforce_policy env stores (settlement_request receipt_refs amount currency actor_entity_id)
    settle_decided receipt_refs settlement_ref amount currency

  unfoldable pub settlements_confirm : String → Call env stores Settlement
  unfolding fetch save Services.confirm
  settlements_confirm settlement_id = do
    settlement ← in_settlements (fetch stores.settlements settlement_id)
    in_settlements (save stores.settlements (Services.confirm settlement))
    pure (Services.confirm settlement)

  unfoldable pub disputes_open :
      String → String → String → Option (List String) → Call env stores Dispute
  unfolding fresh utc_now Services.open_dispute save count
  disputes_open target_ref reason_code claimant_entity_id evidence_refs = do
    uuid ← fresh env stores
    now ← utc_now env stores
    dispute ←
        lift
          (Services.open_dispute target_ref reason_code claimant_entity_id evidence_refs uuid now)
    in_disputes (save stores.disputes dispute)
    count env stores "disputes.open"
    pure dispute

  -- `f"{session_id}:*"` is the key of the session's stream.
  unfoldable pub audit_bundle : ServerState stores → String → AuditBundle
  unfolding stream_key
  audit_bundle s session_id = record {
    session_id = session_id;
    events = Events.replay_from s.events.store (stream_key session_id none) none 10000;
    provenance = stores.provenance.list s.provenance;
    receipts = stores.receipts.list s.receipts;
    settlements = stores.settlements.list s.settlements;
  }
