-- ===== src/Tests/Deployment.antt =====
-- A server over the in-memory stores, with the Environment that it runs in and calls of its clients.
use foundation_protocol.Prelude.{ℕ, zero, suc, String, ◌==◌, true, false, none, some, List, [], ◌∷◌}
use foundation_protocol.Protocol.Json.{null, obj, end}
use foundation_protocol.Protocol.Models.Signed.{pos}
use foundation_protocol.Protocol.Models.Entities.{Entity}
use foundation_protocol.Protocol.Models.Activities.{Activity}
use foundation_protocol.Stores.Kv
use foundation_protocol.Stores.Grouped
use foundation_protocol.Stores.Events as EventStores
use foundation_protocol.Stores.Memory.{
  in_memory_entities, in_memory_organizations, in_memory_memberships, in_memory_sessions,
  in_memory_activities, in_memory_receipts, in_memory_settlements, in_memory_disputes,
  in_memory_provenance,
}
use foundation_protocol.Runtime.Idempotency
use foundation_protocol.Runtime.Activities.{started}
use foundation_protocol.Runtime.Dispatch.{DispatchEngine, no_operations, now, awaitable, returned}
use foundation_protocol.Observability.Metrics.{no_metrics}
use foundation_protocol.Economy.Receipts
use foundation_protocol.Economy.Receipts.{Signatures, ReceiptService}
use foundation_protocol.Policy.{allow_all}
use foundation_protocol.App.State.{Environment, Stores, ServerState}
use foundation_protocol.App.Start.{ActivityStartRequest}
use foundation_protocol.App.Calls.{
  ServerCall, on_graph, on_sessions, on_activities, on_economy, other, register_call, found_call,
  create_call, close_call, start_call, begin_call, resume_call, operation_call, settle_call,
}
use foundation_protocol.Tests.Samples.{session_states, new_activity, acme, acme_entity}

abbrev unary : ℕ → String
unary zero = "0"
unary (suc n) = String.◌∷◌ "1" (unary n)

abbrev pub signatures : Signatures
signatures = record {
  canonical_payload = λ receipt_id activity_id provider records. [];
  ed25519_available = true;
  generate_keypair = ("private", "public");
  sign_ed25519 = λ payload key. "signature";
  verify_ed25519 = λ payload signature key. signature == "signature";
  hmac_sha256 = λ payload secret. "mac";
}

abbrev pub environment : Environment
environment = record {
  uuid4 = unary;
  utc_now = λ n. n;
  encoders = record {
    encode = λ payload. [];
    sha256 = λ raw. "digest";
    decode = λ raw. "";
    decimal = unary;
  };
  dumps = λ payload. "{}";
  text_length = λ payload. 2;
  estimated_cost = λ usage. "0";
  amount_json = λ amount. null;
  signatures = signatures;
  texts = record { str_of = λ value. "value"; is_zero = λ number. false };
  scheme = λ url. "https";
  loop_running = false;
  policy_engine = allow_all;
}

abbrev pub stores : Stores
stores = record {
  entities = in_memory_entities;
  organizations = in_memory_organizations;
  memberships = in_memory_memberships;
  sessions = in_memory_sessions;
  activities = in_memory_activities;
  receipts = in_memory_receipts;
  settlements = in_memory_settlements;
  disputes = in_memory_disputes;
  provenance = in_memory_provenance;
}

abbrev pub service : ReceiptService
service = record {
  secret = "secret";
  key_ref = "key";
  public_keys = ("key", "public") ∷ [];
  signing_mode = Receipts.ed25519;
  private_key_pem = some "private";
  public_key_pem = some "public";
}

abbrev pub fresh_server : ServerState stores
fresh_server = record {
  entities = Kv.empty;
  organizations = Kv.empty;
  memberships = Grouped.empty;
  sessions = Kv.empty;
  activities = Grouped.empty;
  receipts = Kv.empty;
  settlements = Kv.empty;
  disputes = Kv.empty;
  provenance = Kv.empty;
  events = record {
    store = EventStores.empty;
    stream_states = [];
    backpressure = record { default_window = 8; outstanding = []; windows = [] };
    push_configs = [];
  };
  idempotency = Idempotency.empty;
  dispatch = no_operations;
  compactor = record { max_inline_bytes = some 4096; preview_chars = 160 };
  metrics = no_metrics;
  token_budget_enforcer = none;
  receipt_service = service;
  server_entity_id = "fp:system:runtime";
  uuids = 0;
  readings = 0;
}

-- The activity that is started without a handler.
abbrev pub activity : Activity
activity = started (record new_activity { created_at = 1; updated_at = 2 })

abbrev pub ann : Entity
ann = record acme_entity { entity_id = "ann" }

abbrev pub bob : Entity
bob = record acme_entity { entity_id = "bob" }

abbrev pub request : ActivityStartRequest
request = record {
  session_id = "s3";
  owner_entity_id = "ann";
  initiator_entity_id = "bob";
  operation = "plan";
  input_payload = end;
  activity_id = "a9";
  idempotency_key = some "k";
  auto_execute = true;
}

-- Two entities and a session of theirs.
abbrev pub server : ServerState stores
server = record fresh_server {
  entities = Kv.put (λ e. e.entity_id) (Kv.put (λ e. e.entity_id) Kv.empty ann) bob;
  sessions = session_states;
}

-- The table of the asynchronous server: its handler gives an awaitable.
abbrev table : DispatchEngine
table = record {
  operations =
      ("plan", record { invoke = λ context payload. awaitable (returned (obj end)); schema = none })
      ∷ [];
}

abbrev pub calls : List ServerCall
calls =
    on_graph (register_call ann)
    ∷ on_graph (register_call bob)
    ∷ on_graph (found_call acme)
    ∷ on_sessions (create_call ("ann" ∷ "bob" ∷ []) [] none none (some "s3"))
    ∷ other (
        operation_call "plan"
          (record { invoke = λ context payload. now (returned (obj end)); schema = none }))
    ∷ on_activities (start_call request (some "a1") 0)
    ∷ on_activities
        (begin_call (record request { activity_id = "a2"; idempotency_key = none }) 1 table)
    ∷ on_sessions (close_call "s3" none)
    ∷ on_activities (
        resume_call (record request { activity_id = "a2"; idempotency_key = none })
          (record activity { activity_id = "a2" }) (returned (obj end)))
    ∷ on_economy (settle_call ("r1" ∷ []) "ref" (some (pos 3)) none none)
    ∷ []
