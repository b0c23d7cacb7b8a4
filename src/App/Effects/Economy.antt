-- ===== src/App/Effects/Economy.antt =====
-- A call of the server on receipts and settlements stores at most one of them, and a new settlement
-- only where its receipts are stored.
use foundation_protocol.Prelude.{
  arith, ℕ, ap, String, ◌≡◌, refl, ◌⊎◌, inl, inr, Option, none, some, List, [], ◌∷◌, ◌==◌, true,
  Option-cases, Bool-cases, eq_iff, eq_refl, subst,
}
use foundation_protocol.TextSet.{contains}
use foundation_protocol.Protocol.Errors.{ok, err, Error, fp_error, not_found}
use foundation_protocol.Protocol.Json.{Fields}
use foundation_protocol.Protocol.Models.Signed.{ℤ, require_non_empty}
use foundation_protocol.Protocol.Models.Economy.{MeterRecord, Receipt, Settlement, init_settlement}
use foundation_protocol.Runtime.Revise.{fetch, save, Result-cases}
use foundation_protocol.Stores.Stored.{Stored}
use foundation_protocol.Economy.Services
use foundation_protocol.Economy.Receipts
use foundation_protocol.App.State.{Environment, Stores, ServerState, utc_now, fresh}
use foundation_protocol.App.Quiet.{core, count-Keeps, emit_event-Keeps, provenance_record-Keeps}
use foundation_protocol.App.Effects.Policy.{behind_policy}
use foundation_protocol.App.Steps.{Step, stay, issue, settle, confirmed}
use foundation_protocol.App.Economy.{
  meter_record, receipts_issue, require_receipts, settle_decided, settlement_request,
  settlements_create, settlements_confirm, disputes_open,
}
use foundation_protocol.App.Calls.{
  EconomyCall, meter_call, issue_call, settle_call, confirm_call, dispute_call, provenance_call,
  run_economy,
}

settle-refs :
    (refs : List String) (ref : String) (amount : Option ℤ) (currency : Option String)
    (uuid : String) (now : ℕ) (t : Settlement)
    → Services.settle refs ref amount currency uuid now ≡ ok t
    → t.receipt_refs ≡ refs
unfolding Services.settle init_settlement require_non_empty
settle-refs refs ref amount currency uuid now t h = ground (arith, h)

module _ (env : Environment) (stores : Stores) (s : ServerState stores) where
  abbrev AllIssued : List String → Type 0
  AllIssued refs = (r : String) → contains refs r ≡ true → Stored stores.receipts s.receipts r

  require_receipts_cases :
      (refs : List String)
      → ((e : Error) × (require_receipts env stores refs s ≡ (err e, s)))
        ⊎ ((require_receipts env stores refs s ≡ (ok tt, s)) × AllIssued refs)
  unfolding require_receipts contains
  require_receipts_cases [] = inr (refl, λ x there. absurd (ground (arith, there)))
  require_receipts_cases (e ∷ es) = elim (Option-cases (stores.receipts.get s.receipts e)) [
    | inl p ↦ inl (fp_error not_found, ground (arith, p))
    | inr (v, p) ↦ elim (require_receipts_cases es) [
      | inl (c, q) ↦ inl (c, ground (arith, p, q))
      | inr (q, all) ↦ inr (
        ground (arith, p, q),
        λ x there. elim (Bool-cases (e == x)) [
          | inl same ↦
              subst (Stored stores.receipts s.receipts) (ground (arith, same, eq_iff e x)) (v, p)
          | inr other ↦ all x (ground (arith, there, other))
        ],
      )
    ]
  ]

  settle_decided_effect :
      (refs : List String) (ref : String) (amount : Option ℤ) (currency : Option String)
      → AllIssued refs
      → Step stores (core s) (core (settle_decided env stores refs ref amount currency s).1)
  unfolding settle_decided fresh utc_now save
  settle_decided_effect refs ref amount currency all =
      elim (Result-cases
        (Services.settle refs ref amount currency (env.uuid4 s.uuids) (env.utc_now s.readings))) [
          | inr (e, p) ↦ stay (ground (arith, p))
          | inl (t, p) ↦
              settle {a = core s} t
                (rw
                  (settle-refs refs ref amount currency (env.uuid4 s.uuids) (env.utc_now s.readings)
                    t p)
                  all)
                (ground (arith, p, count-Keeps env stores))
        ]

  issue_effect :
      (activity provider : String) (records : List MeterRecord)
      → Step stores (core s) (core (receipts_issue env stores activity provider records s).1)
  unfolding receipts_issue fresh utc_now save fetch
  issue_effect activity provider records =
      elim (Result-cases (
        Receipts.issue env.signatures s.receipt_service activity provider records
          (env.uuid4 s.uuids) (env.utc_now s.readings))) [
            | inr (e, p) ↦ stay (ground (arith, p))
            | inl (r, p) ↦ issue {a = core s} r (ground (arith, p, emit_event-Keeps env stores))
          ]

  confirm_effect :
      (id : String) → Step stores (core s) (core (settlements_confirm env stores id s).1)
  unfolding settlements_confirm save fetch
  confirm_effect id = elim (Option-cases (stores.settlements.get s.settlements id)) [
    | inl p ↦ stay (ground (arith, p))
    | inr (t, p) ↦ confirmed {a = core s} id t p (ground (arith, p))
  ]

module _ (env : Environment) (stores : Stores) (s : ServerState stores) where
  settle_effect :
      (refs : List String) (ref : String) (amount : Option ℤ) (currency actor : Option String)
      → Step stores
          (core s)
          (core (settlements_create env stores refs ref amount currency actor s).1)
  unfolding settlements_create
  settle_effect refs ref amount currency actor = elim (require_receipts_cases env stores s refs) [
    | inl (e, p) ↦ stay (ground (arith, p))
    | inr (p, all) ↦
        subst (λ c. Step stores (core s) c) (ground (arith, p))
          (behind_policy env stores s (settlement_request env stores refs amount currency actor)
            (settle_decided env stores refs ref amount currency) (Step stores) (λ a b. stay)
            λ t same.
              settle_decided_effect env stores t refs ref amount currency
                (rw (ap (λ c. c.receipts) same) all))
  ]

  meter_same :
      (subject unit : String) (quantity : ℤ) (policy : String) (metadata : Option Fields)
      → core (meter_record env stores subject unit quantity policy metadata s).1 ≡ core s
  unfolding meter_record fresh utc_now
  meter_same subject unit quantity policy metadata = refl

  dispute_same :
      (target reason claimant : String) (refs : Option (List String))
      → core (disputes_open env stores target reason claimant refs s).1 ≡ core s
  unfolding disputes_open fresh utc_now save
  dispute_same target reason claimant refs = ground (arith, count-Keeps env stores)

  pub run_economy_effect :
      (c : EconomyCall) → Step stores (core s) (core (run_economy env stores c s))
  unfolding run_economy
  run_economy_effect (meter_call subject unit quantity policy metadata) =
      stay (meter_same subject unit quantity policy metadata)
  run_economy_effect (issue_call activity provider records) =
      issue_effect env stores s activity provider records
  run_economy_effect (settle_call refs ref amount currency actor) =
      settle_effect refs ref amount currency actor
  run_economy_effect (confirm_call id) = confirm_effect env stores s id
  run_economy_effect (dispute_call target reason claimant refs) =
      stay (dispute_same target reason claimant refs)
  run_economy_effect (provenance_call e) = stay (provenance_record-Keeps env stores e s)

  -- Where a receipt can be made out for an activity that is not stored, receipts_issue raises
  -- NOT_FOUND and the receipt is stored all the same.
  pub issue_unknown :
      (activity provider : String) (records : List MeterRecord) (receipt : Receipt)
      → Receipts.issue env.signatures s.receipt_service activity provider records
          (env.uuid4 s.uuids)
          (env.utc_now s.readings)
        ≡ ok receipt
      → stores.activities.base.get s.activities activity ≡ none
      → let after = receipts_issue env stores activity provider records s in
        (after.0 ≡ err (fp_error not_found))
        × (stores.receipts.get after.1.receipts receipt.receipt_id ≡ some receipt)
  unfolding receipts_issue fresh utc_now save fetch
  issue_unknown activity provider records receipt p q = (
    ground (arith, p, q),
    ground (
      arith,
      p,
      q,
      stores.receipts.get-put s.receipts receipt receipt.receipt_id,
      eq_refl receipt.receipt_id,
    ),
  )
