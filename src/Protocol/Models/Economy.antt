-- ===== src/Protocol/Models/Economy.antt =====
-- Metering, receipts, settlements, disputes and provenance: src/fp/protocol/models.py.
use foundation_protocol.Prelude.{ℕ, String, Option, List, is_empty}
use foundation_protocol.Protocol.Errors.{Result, ok, invalid_argument, check}
use foundation_protocol.Protocol.Json.{Fields}
use foundation_protocol.Protocol.Models.Signed.{ℤ, is_negative, some_negative, require_non_empty}

pub data SettlementStatus : Type 0 where
  pending confirmed rejected disputed : SettlementStatus

pub record MeterRecord : Type 0 where
  pub meter_id : String
  pub subject_ref : String
  pub unit : String
  pub quantity : ℤ
  pub metering_policy_ref : String
  pub metered_at : ℕ
  pub metadata : Fields

unfoldable pub init_meter_record : MeterRecord → Result MeterRecord
unfolding require_non_empty
init_meter_record m = require_non_empty m.meter_id (
    require_non_empty m.subject_ref (
      require_non_empty m.unit (
        require_non_empty m.metering_policy_ref
          (check (is_negative m.quantity) invalid_argument (ok m)))))

pub record Receipt : Type 0 where
  pub receipt_id : String
  pub activity_id : String
  pub provider_entity_id : String
  pub meter_records : List MeterRecord
  pub integrity_proof : String
  pub created_at : ℕ

unfoldable pub init_receipt : Receipt → Result Receipt
unfolding require_non_empty
init_receipt r = require_non_empty r.receipt_id (
    require_non_empty r.activity_id (
      require_non_empty r.provider_entity_id (
        require_non_empty r.integrity_proof
          (check (is_empty r.meter_records) invalid_argument (ok r)))))

pub record Settlement : Type 0 where
  pub settlement_id : String
  pub receipt_refs : List String
  pub settlement_ref : String
  pub status : SettlementStatus
  pub amount : Option ℤ
  pub currency : Option String
  pub created_at : ℕ

unfoldable pub init_settlement : Settlement → Result Settlement
unfolding require_non_empty
init_settlement s = require_non_empty s.settlement_id (
    require_non_empty s.settlement_ref (
      check (is_empty s.receipt_refs) invalid_argument
        (check (some_negative s.amount) invalid_argument (ok s))))

pub record Dispute : Type 0 where
  pub dispute_id : String
  pub target_ref : String
  pub reason_code : String
  pub claimant_entity_id : String
  pub evidence_refs : List String
  pub created_at : ℕ
  pub status : String

unfoldable pub init_dispute : Dispute → Result Dispute
unfolding require_non_empty
init_dispute d = require_non_empty d.dispute_id (
    require_non_empty d.target_ref
      (require_non_empty d.reason_code (require_non_empty d.claimant_entity_id (ok d))))

pub record ProvenanceRecord : Type 0 where
  pub record_id : String
  pub subject_refs : List String
  pub policy_refs : List String
  pub outcome : String
  pub signer_ref : String
  pub timestamp : ℕ
  pub input_digest_refs : List String
  pub metadata : Fields

unfoldable pub init_provenance_record : ProvenanceRecord → Result ProvenanceRecord
unfolding require_non_empty
init_provenance_record p = require_non_empty p.record_id (
    check (is_empty p.subject_refs) invalid_argument (
      check (is_empty p.policy_refs) invalid_argument
        (require_non_empty p.outcome (require_non_empty p.signer_ref (ok p)))))
