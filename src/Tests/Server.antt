-- ===== src/Tests/Server.antt =====
-- The theorems on the server, applied to the deployment of Deployment.
use foundation_protocol.Prelude.{
  ◌≡◌, nat_eq, refl, true, false, ◌⊎◌, none, some, [], ◌∷◌, if◌then◌else◌, ap,
}
use foundation_protocol.Dict
use foundation_protocol.Prelude.Texts.{is_blank}
use foundation_protocol.Protocol.Errors.{
  ok, err, Error, fp_error, not_found, policy_denied, rate_limited,
}
use foundation_protocol.Protocol.Json.{end}
use foundation_protocol.Protocol.Models.Signed.{pos, require_non_empty}
use foundation_protocol.Protocol.Models.Activities.{Activity, init_activity}
use foundation_protocol.Protocol.Models.Economy.{MeterRecord, Receipt, init_receipt}
use foundation_protocol.Stores.Kv
use foundation_protocol.Stores.Kv.Laws.{IsKeyed-empty}
use foundation_protocol.Stores.Grouped
use foundation_protocol.Stores.Grouped.Index.{IsIndexed-empty}
use foundation_protocol.Runtime.Revise.{save}
use foundation_protocol.Runtime.Dispatch.{no_operations, execute}
use foundation_protocol.Economy.Receipts
use foundation_protocol.Economy.Receipts.{Signatures, ReceiptService}
use foundation_protocol.Economy.Receipts.Proofs.{CanSign, verify-issue}
use foundation_protocol.Policy.{allow_all, deny, PolicyContext, pre_role_change}
use foundation_protocol.App.State.{Enforcer, Environment, ServerState, enforce_policy}
use foundation_protocol.App.Quiet.{core}
use foundation_protocol.App.Steps.{Steps}
use foundation_protocol.App.Start.{start, invocation, check_idempotency}
use foundation_protocol.App.Economy.{receipts_issue}
use foundation_protocol.App.Calls.{run_all}
use foundation_protocol.App.Links.Invariant.{IsLinked}
use foundation_protocol.App.Reachable.{run_all-IsLinked}
use foundation_protocol.App.Decisions.{decision, recorded, enforce_policy_lem, start-denied}
use foundation_protocol.App.Retry.{IsRefused, start_again}
use foundation_protocol.App.Effects.Economy.{issue_unknown}
use foundation_protocol.Tests.Deployment.{
  signatures, environment, stores, service, fresh_server, activity, request, server, calls,
}

nothing_stored : IsLinked stores (core fresh_server)
unfolding Kv.get Grouped.get Dict.get
nothing_stored = record {
  sessions_valid = IsKeyed-empty (λ s. s.session_id);
  activities_valid = IsIndexed-empty (λ a. a.activity_id) (λ a. a.session_id);
  memberships_valid = IsIndexed-empty (λ m. m.membership_id) (λ m. m.organization_id);
  participants = λ k v e. cc (e);
  activities = λ k v e. cc (e);
  memberships = λ k v e. cc (e);
  settlements = λ k v e. cc (e);
}

run_all-IsLinked_example : IsLinked stores (core (run_all environment stores calls fresh_server))
run_all-IsLinked_example = run_all-IsLinked environment stores calls fresh_server nothing_stored

-- An engine that denies everything.
abbrev strict : Environment
strict = record environment { policy_engine = λ context uuid. deny "closed" none uuid }

abbrev question : PolicyContext
question = record {
  hook = pre_role_change;
  actor_entity_id = some "ann";
  session_id = none;
  activity_id = none;
  operation = none;
  payload = end;
}

enforce_policy_lem_example : enforce_policy strict stores question server ≡ (
  if (decision strict stores question server).allowed then ok tt else err (fp_error policy_denied),
  recorded strict stores question server,
)
enforce_policy_lem_example = enforce_policy_lem strict stores question server

denied_here : (decision strict stores (invocation strict stores request) server).allowed ≡ false
unfolding deny
denied_here = refl

start-denied_example :
    ((e : Error) × (start strict stores request 0 (execute false) server ≡ (err e, server)))
    ⊎ ((a : Activity) × (start strict stores request 0 (execute false) server ≡ (ok a, server))
        × (check_idempotency strict stores request (some "k") server ≡ (ok (some a), server)))
    ⊎ (start strict stores request 0 (execute false) server ≡ (
      err (fp_error policy_denied),
      recorded strict stores (invocation strict stores request) server,
    ))
start-denied_example = start-denied strict stores request server 0 (execute false) denied_here

abbrev record_of : MeterRecord
record_of = record {
  meter_id = "m";
  subject_ref = "a1";
  unit = "call";
  quantity = pos 1;
  metering_policy_ref = "p";
  metered_at = 1;
  metadata = end;
}

abbrev receipt : Receipt
receipt = record {
  receipt_id = "rcpt-0";
  activity_id = "a1";
  provider_entity_id = "ann";
  meter_records = record_of ∷ [];
  integrity_proof = "ed25519:key:signature";
  created_at = 0;
}

service-CanSign : CanSign signatures service
unfolding Receipts.verification_key Dict.get
service-CanSign = record {
  mac_full = λ p. refl;
  pair = λ key e. record {
    public_key = "public";
    listed = refl;
    named = refl;
    full = λ p. refl;
    plain = λ p. refl;
    verifies = λ p. refl;
  };
}

issued_here : Receipts.issue signatures service "a1" "ann" (record_of ∷ []) "0" 0 ≡ ok receipt
unfolding Receipts.issue init_receipt require_non_empty is_blank
issued_here = refl

verify-issue_example : Receipts.verify signatures service receipt ≡ true
verify-issue_example =
    verify-issue signatures service "a1" "ann" (record_of ∷ []) "0" 0 receipt service-CanSign
      issued_here

unknown_here : Grouped.get server.activities "a1" ≡ none
unfolding Grouped.get Dict.get
unknown_here = refl

issue_unknown_example :
    let after = receipts_issue environment stores "a1" "ann" (record_of ∷ []) server in
    (after.0 ≡ err (fp_error not_found)) × (Kv.get after.1.receipts "rcpt-0" ≡ some receipt)
issue_unknown_example =
    issue_unknown environment stores server "a1" "ann" (record_of ∷ []) receipt issued_here
      unknown_here

-- An enforcer that lets one question pass.
abbrev once : Enforcer
once question payload = if nat_eq question 0 then ok tt else err (fp_error rate_limited)

abbrev guarded_server : ServerState stores
guarded_server = record server { token_budget_enforcer = some once }

started_here : (start environment stores request 0 (execute false) guarded_server).0 ≡ ok activity
unfolding start Kv.get Dict.get Kv.put Dict.put is_blank allow_all Grouped.get init_activity save
    Dict.has no_operations
started_here = refl

abbrev started_server : ServerState stores
started_server = (start environment stores request 0 (execute false) guarded_server).1

started_ok :
    start environment stores request 0 (execute false) guarded_server
    ≡ (ok activity, started_server)
started_ok = ap (λ r. (r, started_server)) started_here

start_again_example :
    (start environment stores request 1 (execute false) started_server
      ≡ (ok activity, started_server))
    ⊎ ((e : Error) × IsRefused environment stores request 1 started_server e
        × (start environment stores request 1 (execute false) started_server
            ≡ (err e, started_server)))
start_again_example =
    start_again environment stores request 0 1 (execute false) "k" guarded_server started_server
      activity refl refl started_ok
