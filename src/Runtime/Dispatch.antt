-- ===== src/Runtime/Dispatch.antt =====
-- src/fp/runtime/dispatch_engine.py: the table of operations. A handler is the call that
-- `_build_invoker` makes of it; it may return, raise, or return something to be awaited.
use Prim.Native.String.{◌++◌ as cat}
use foundation_protocol.Prelude.{String, Bool, true, false, Option, none, some, [], ◌∷◌}
use foundation_protocol.Dict
use foundation_protocol.Dict.{Dict}
use foundation_protocol.Protocol.Errors.{Result, ok, err, fp_error, not_found}
use foundation_protocol.Protocol.Json.{Json, Fields, end}

pub record DispatchContext : Type 0 where
  pub session_id : String
  pub activity_id : String
  pub operation : String
  pub actor_entity_id : String
  pub metadata : Fields

-- How a call ends: with a value, or with an exception, which is kept as its text `str(exc)`.
pub data Outcome : Type 0 where
  returned : Json → Outcome
  raised : String → Outcome

-- What a handler gives back at once: an end, or an awaitable with the end that it comes to.
pub data Output : Type 0 where
  now : Outcome → Output
  awaitable : Outcome → Output

-- `_RegisteredOperation`
pub record RegisteredOperation : Type 0 where
  pub invoke : DispatchContext → Fields → Output
  pub schema : Option Fields

pub record DispatchEngine : Type 0 where
  pub operations : Dict RegisteredOperation

-- `__init__`
unfoldable pub no_operations : DispatchEngine
no_operations = record { operations = [] }

unfoldable pub register : String → RegisteredOperation → DispatchEngine → DispatchEngine
register operation registered engine = record {
  operations = Dict.put engine.operations operation registered;
}

unfoldable pub has_handler : DispatchEngine → String → Bool
has_handler engine operation = Dict.has engine.operations operation

abbrev or_empty : Option Fields → Fields
or_empty none = end
or_empty (some schema) = schema

abbrev schema_of : Option RegisteredOperation → Result Fields
schema_of none = err (fp_error not_found)
schema_of (some registered) = ok (or_empty registered.schema)

unfoldable pub schema_for : DispatchEngine → String → Result Fields
schema_for engine operation = schema_of (Dict.get engine.operations operation)

-- The operations that have a schema, with it.
unfoldable pub schemas : Dict RegisteredOperation → Dict Fields
schemas [] = []
schemas ((operation, registered) ∷ rest) =
    let others = schemas rest in
    elim registered.schema [ none ↦ others | some schema ↦ (operation, schema) ∷ others ]

unfoldable pub operation_schemas : DispatchEngine → Dict Fields
unfolding schemas
operation_schemas engine = schemas engine.operations

-- The text of the error that a missing handler raises.
abbrev missing : String → Outcome
missing operation = raised (cat "FP_NOT_FOUND: operation handler not found: " operation)

-- An awaitable can only be run here where no event loop is running.
abbrev run_output : Bool → Output → Outcome
run_output loop_running (now outcome) = outcome
run_output false (awaitable outcome) = outcome
run_output true (awaitable outcome) =
    raised
      "FP_INTERNAL_ERROR: cannot execute async handler from sync context while event loop is running; register a sync handler or call through async runtime entrypoints"

unfoldable pub execute : Bool → DispatchEngine → DispatchContext → Fields → Outcome
execute loop_running engine context input_payload =
    elim (Dict.get engine.operations context.operation) [
      | none ↦ missing context.operation
      | some registered ↦ run_output loop_running (registered.invoke context input_payload)
    ]

-- `AsyncDispatchEngine.execute`, which awaits what the handler returns
abbrev awaited : Output → Outcome
awaited (now outcome) = outcome
awaited (awaitable outcome) = outcome

unfoldable pub execute_async : DispatchEngine → DispatchContext → Fields → Outcome
execute_async engine context input_payload = elim (Dict.get engine.operations context.operation) [
  | none ↦ missing context.operation
  | some registered ↦ awaited (registered.invoke context input_payload)
]
