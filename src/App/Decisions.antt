-- ===== src/App/Decisions.antt =====
-- What a decision of the policy engine leaves behind, and what it stops.
use Prim.Native.String.{◌++◌ as cat}
use Prim.Native.String.append
use foundation_protocol.Prelude.{
  ℕ, arith, suc, String, false, ◌≡◌, refl, some, [], is_empty, ap, ◌∙◌, if◌then◌else◌, ◌⊎◌, inl,
  inr,
}
use foundation_protocol.Prelude.Texts.{is_blank}
use foundation_protocol.Protocol.Errors.{ok, err, Error, fp_error, policy_denied}
use foundation_protocol.Protocol.Rules.{then_err}
use foundation_protocol.Protocol.Models.Activities.{Activity}
use foundation_protocol.Protocol.Models.Economy.{ProvenanceRecord, init_provenance_record}
use foundation_protocol.Protocol.Models.Signed.{require_non_empty}
use foundation_protocol.Runtime.Governance
use foundation_protocol.Runtime.Governance.{Evidence, subject_refs, evidence}
use foundation_protocol.Policy.{PolicyContext, PolicyDecision}
use foundation_protocol.App.State.{
  Environment, Stores, ServerState, fresh, new_id, utc_now, evaluate, provenance_record,
  enforce_policy,
}
use foundation_protocol.App.Start.{
  ActivityStartRequest, Execute, invocation, start_decided, start_new, start, check_idempotency,
}
use foundation_protocol.App.Effects.Admission.{admit_cases}

record_id-full : (uuid : String) → is_blank (cat "prov-" uuid) ≡ false
unfolding is_blank
record_id-full uuid = ap is_blank (append.cons "p" "rov-" uuid)

allowed_full : is_blank "allowed" ≡ false
unfolding is_blank
allowed_full = refl

denied_full : is_blank "denied" ≡ false
unfolding is_blank
denied_full = refl

signer_full : is_blank "fp:system:policy-engine" ≡ false
unfolding is_blank
signer_full = refl

subject_refs-full :
    (texts : Governance.Texts) (context : PolicyContext)
    → is_empty (subject_refs texts context) ≡ false
unfolding subject_refs
subject_refs-full texts context = ground arith

module _ (env : Environment) (stores : Stores) (context : PolicyContext)
    (s : ServerState stores) where
  -- The engine's answer to the question.
  abbrev pub decision : PolicyDecision
  decision = env.policy_engine context (env.uuid4 s.uuids)

  -- The record of the answer.
  abbrev pub provenance_entry : ProvenanceRecord
  provenance_entry =
      let e = evidence env.texts context decision in
      record {
        record_id = cat "prov-" (env.uuid4 (suc s.uuids));
        subject_refs = e.subject_refs;
        policy_refs = e.policy_refs;
        outcome = e.outcome;
        signer_ref = e.signer_ref;
        timestamp = env.utc_now s.readings;
        input_digest_refs = [];
        metadata = e.metadata;
      }

  abbrev pub recorded : ServerState stores
  recorded = record s {
    provenance = stores.provenance.put s.provenance provenance_entry;
    uuids = suc (suc s.uuids);
    readings = suc s.readings;
  }

  entry_checked : init_provenance_record provenance_entry ≡ ok provenance_entry
  unfolding init_provenance_record require_non_empty evidence
  entry_checked = ground (
    arith,
    record_id-full (env.uuid4 (suc s.uuids)),
    subject_refs-full env.texts context,
    allowed_full,
    denied_full,
    signer_full,
  )

  -- Asking the policy engine stores one provenance record of its answer, takes two fresh values and
  -- one reading of the clock, changes nothing else, and raises POLICY_DENIED exactly if the answer
  -- is a denial.
  pub enforce_policy_lem :
      enforce_policy env stores context s
      ≡ (if decision.allowed then ok tt else err (fp_error policy_denied), recorded)
  unfolding enforce_policy Governance.enforce evaluate fresh provenance_record new_id utc_now
  enforce_policy_lem = ground (arith, entry_checked)

module _ (env : Environment) (stores : Stores) (r : ActivityStartRequest)
    (s : ServerState stores) where
  -- Where the policy engine denies the invocation, a start raises and changes nothing, or returns
  -- the activity that its key was stored with and changes nothing, or raises POLICY_DENIED and
  -- changes nothing but the record of the decision and the counts of fresh values and clock
  -- readings.
  pub start-denied :
      (question : ℕ) (run_handler : Execute)
      → (decision env stores (invocation env stores r) s).allowed ≡ false
      → ((e : Error) × (start env stores r question run_handler s ≡ (err e, s)))
        ⊎ ((a : Activity) × (start env stores r question run_handler s ≡ (ok a, s))
            × (check_idempotency env stores r r.idempotency_key s ≡ (ok (some a), s)))
        ⊎ (start env stores r question run_handler s
            ≡ (err (fp_error policy_denied), recorded env stores (invocation env stores r) s))
  unfolding start start_new
  start-denied question run_handler denied =
      elim (admit_cases env stores r s question (λ a. a) (start_new env stores r run_handler)) [
        | inl refused ↦ inl refused
        | inr (_, _, _, inl cached) ↦ inr (inl cached)
        | inr (_, _, _, inr p) ↦
            let context = invocation env stores r in
            let stops =
              enforce_policy_lem env stores context s
              ∙ ap
                  (λ b. (
                    if b then ok tt else err (fp_error policy_denied),
                    recorded env stores context s,
                  ))
                  denied in
            inr (
              inr (
                p
                ∙ then_err (enforce_policy env stores context)
                    (λ _. start_decided env stores r run_handler) s (recorded env stores context s)
                    (fp_error policy_denied) stops))
      ]
