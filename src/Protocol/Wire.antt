-- ===== src/Protocol/Wire.antt =====
-- `FPError` of src/fp/protocol/errors.py with all its fields, as it goes over a transport.

use foundation_protocol.Prelude.{String, Bool, if◌then◌else◌}
use foundation_protocol.Protocol.Errors.{
  FpErrorCode, version_unsupported, auth_required, authz_denied, policy_denied,
  invalid_state_transition, not_found, rate_limited, backpressure, extension_required,
  internal_error, invalid_argument, conflict, already_exists,
}
use foundation_protocol.Protocol.Json.{bool, str, obj, Fields, end, field, no_fields}

-- `FPErrorCode(...).value`
unfoldable pub code_value : FpErrorCode → String
code_value version_unsupported = "FP_VERSION_UNSUPPORTED"
code_value auth_required = "FP_AUTH_REQUIRED"
code_value authz_denied = "FP_AUTHZ_DENIED"
code_value policy_denied = "FP_POLICY_DENIED"
code_value invalid_state_transition = "FP_INVALID_STATE_TRANSITION"
code_value not_found = "FP_NOT_FOUND"
code_value rate_limited = "FP_RATE_LIMITED"
code_value backpressure = "FP_BACKPRESSURE"
code_value extension_required = "FP_EXTENSION_REQUIRED"
code_value internal_error = "FP_INTERNAL_ERROR"
code_value invalid_argument = "FP_INVALID_ARGUMENT"
code_value conflict = "FP_CONFLICT"
code_value already_exists = "FP_ALREADY_EXISTS"

-- `FPError` with all its fields; the message has been filled in.
pub record FpError : Type 0 where
  pub code : FpErrorCode
  pub message : String
  pub details : Fields
  pub retryable : Bool

-- `FPError.to_dict`
unfoldable pub to_dict : FpError → Fields
unfolding code_value no_fields
to_dict e = field "code" (str (code_value e.code)) (
    field "message" (str e.message) (
      field "retryable" (bool e.retryable)
        (if no_fields e.details then end else field "details" (obj e.details) end)))

-- `_DEFAULT_MESSAGES`
unfoldable pub default_message : FpErrorCode → String
default_message version_unsupported = "Unsupported FP protocol version"
default_message auth_required = "Authentication is required"
default_message authz_denied = "Authorization denied"
default_message policy_denied = "Request denied by policy"
default_message invalid_state_transition = "Invalid state transition"
default_message not_found = "Requested object was not found"
default_message rate_limited = "Rate limit exceeded"
default_message backpressure = "Backpressure threshold exceeded"
default_message extension_required = "Required extension is missing"
default_message internal_error = "Internal FP runtime error"
default_message invalid_argument = "Invalid argument"
default_message conflict = "Conflict with current object state"
default_message already_exists = "Object already exists"
