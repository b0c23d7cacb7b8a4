-- ===== src/Economy/Services.antt =====
-- src/fp/economy/meter.py, settlement.py and dispute.py. An object that is made passes the check of
-- its class.
use Prim.Native.String.{◌++◌ as cat}
use foundation_protocol.Prelude.{ℕ, String, Option, none, some, List, []}
use foundation_protocol.Protocol.Errors.{Result}
use foundation_protocol.Protocol.Json.{Fields, end}
use foundation_protocol.Protocol.Models.Signed.{ℤ}
use foundation_protocol.Protocol.Models.Economy.{
  pending, confirmed, rejected, MeterRecord, init_meter_record, Settlement, init_settlement,
  Dispute, init_dispute,
}

-- `MeteringService.record`
unfoldable pub meter :
    String → String → ℤ → String → Option Fields → String → ℕ → Result MeterRecord
unfolding init_meter_record
meter subject_ref unit quantity metering_policy_ref metadata uuid now = init_meter_record (record {
  meter_id = cat "meter-" uuid;
  subject_ref = subject_ref;
  unit = unit;
  quantity = quantity;
  metering_policy_ref = metering_policy_ref;
  metered_at = now;
  metadata = elim metadata [ none ↦ end | some d ↦ d ];
})

-- `SettlementService.create`
unfoldable pub settle :
    List String → String → Option ℤ → Option String → String → ℕ → Result Settlement
unfolding init_settlement
settle receipt_refs settlement_ref amount currency uuid now = init_settlement (record {
  settlement_id = cat "stl-" uuid;
  receipt_refs = receipt_refs;
  settlement_ref = settlement_ref;
  status = pending;
  amount = amount;
  currency = currency;
  created_at = now;
})

unfoldable pub confirm : Settlement → Settlement
confirm settlement = record settlement { status = confirmed }

unfoldable pub reject : Settlement → Settlement
reject settlement = record settlement { status = rejected }

-- `DisputeService.open`
unfoldable pub open_dispute :
    String → String → String → Option (List String) → String → ℕ → Result Dispute
unfolding init_dispute
open_dispute target_ref reason_code claimant_entity_id evidence_refs uuid now =
    init_dispute (record {
      dispute_id = cat "dsp-" uuid;
      target_ref = target_ref;
      reason_code = reason_code;
      claimant_entity_id = claimant_entity_id;
      evidence_refs = elim evidence_refs [ none ↦ [] | some refs ↦ refs ];
      created_at = now;
      status = "open";
    })

unfoldable pub close_dispute : String → Dispute → Dispute
close_dispute status dispute = record dispute { status = status }
