-- ===== src/Transport/JsonRpc/InProcess.antt =====
-- src/fp/transport/client_inproc.py: a call over the dispatcher in the same process, and what becomes of
-- an error on the way.
use Prim.Native.String.{◌++◌ as cat}
use foundation_protocol.Prelude.{
  String, Bool, false, Option, none, some, ◌≡◌, refl, arith, ◌==◌, ◌⊎◌, inl, inr, ap, if◌then◌else◌,
}
use foundation_protocol.Dict
use foundation_protocol.Dict.{Dict}
use foundation_protocol.Protocol.Errors.{
  FpErrorCode, version_unsupported, auth_required, authz_denied, policy_denied,
  invalid_state_transition, not_found, rate_limited, backpressure, extension_required,
  internal_error, invalid_argument, conflict, already_exists,
}
use foundation_protocol.Protocol.Json.{
  Json, null, bool, num, str, obj, Fields, end, field, get_field, no_fields,
}
use foundation_protocol.Protocol.Wire.{code_value, FpError, to_dict, default_message}
use foundation_protocol.Transport.JsonRpc.{
  Answer, answered, failed, rejected, crashed, Casing, decode_request, received, respond, handle,
  is_request_id,
}

-- `FPErrorCode(code)`, where the code is one
unfoldable code_of : String → Option FpErrorCode
code_of text =
    if text == "FP_VERSION_UNSUPPORTED"
    then some version_unsupported
    else if text == "FP_AUTH_REQUIRED"
    then some auth_required
    else if text == "FP_AUTHZ_DENIED"
    then some authz_denied
    else if text == "FP_POLICY_DENIED"
    then some policy_denied
    else if text == "FP_INVALID_STATE_TRANSITION"
    then some invalid_state_transition
    else if text == "FP_NOT_FOUND"
    then some not_found
    else if text == "FP_RATE_LIMITED"
    then some rate_limited
    else if text == "FP_BACKPRESSURE"
    then some backpressure
    else if text == "FP_EXTENSION_REQUIRED"
    then some extension_required
    else if text == "FP_INTERNAL_ERROR"
    then some internal_error
    else if text == "FP_INVALID_ARGUMENT"
    then some invalid_argument
    else if text == "FP_CONFLICT"
    then some conflict
    else if text == "FP_ALREADY_EXISTS"
    then some already_exists
    else none

-- What a call gives its caller; `None` is `null`.
pub data CallResult : Type 0 where
  returned : Json → CallResult
  raised : FpError → CallResult

-- The messages of the dispatcher are texts, its details objects and `retryable` a Boolean.
abbrev text_or : String → Option Json → String
text_or d (some (str text)) = text
text_or d _ = d

abbrev object_or_empty : Option Json → Fields
object_or_empty (some (obj d)) = d
object_or_empty _ = end

abbrev is_true : Option Json → Bool
is_true (some (bool b)) = b
is_true _ = false

abbrev object_of : Option Json → Option Fields
object_of (some (obj d)) = some d
object_of _ = none

abbrev get_in : Option Fields → String → Option Json
get_in none key = none
get_in (some d) key = get_field d key

abbrev code_in : Option Json → Option FpErrorCode
code_in (some (str text)) = code_of text
code_in _ = none

abbrev rebuilt : Fields → Option Fields → Option FpErrorCode → FpError
rebuilt error (some fp) (some code) = record {
  code = code;
  message = text_or (default_message code) (get_field fp "message");
  details = object_or_empty (get_field fp "details");
  retryable = is_true (get_field fp "retryable");
}
rebuilt error _ _ = record {
  code = internal_error;
  message = text_or "in-process transport call failed" (get_field error "message");
  details = field "remote_error" (obj error) end;
  retryable = false;
}

-- `_map_jsonrpc_error`
unfoldable pub map_jsonrpc_error : Fields → FpError
unfolding code_of default_message get_field
map_jsonrpc_error error =
    let fp = object_of (get_in (object_of (get_field error "data")) "fp") in
    rebuilt error fp (code_in (get_in fp "code"))

abbrev or_null : Option Json → Json
or_null none = null
or_null (some value) = value

abbrev result_of : Fields → Option Json → CallResult
result_of response (some (obj error)) = raised (map_jsonrpc_error error)
result_of response _ = returned (or_null (get_field response "result"))

-- The response, as the client reads it.
unfoldable pub read_response : Option Fields → CallResult
unfolding map_jsonrpc_error get_field
read_response none = returned null
read_response (some response) = result_of response (get_field response "error")

module _ {S : Type 0} (casing : Casing) (table : Dict (Fields → S → Answer × S)) where
  -- `InProcessClientTransport.call`, with the fresh `uuid4` of the request
  unfoldable pub call : String → String → Fields → S → CallResult × S
  unfolding handle read_response
  call uuid method params s =
      let (response, after) =
        handle casing table
          (obj (
            field "jsonrpc" (str "2.0") (
              field "id" (str (cat "req-" uuid))
                (field "method" (str method) (field "params" (obj params) end)))))
          s in
      (read_response response, after)

abbrev error_object : String → String → Json → Fields
error_object code message data_ =
    field "code" (num code) (field "message" (str message) (field "data" data_ end))

abbrev detail_object : String → Json
detail_object detail = obj (field "detail" (str detail) end)

Fields-cases : (d : Fields) → (d ≡ end) ⊎ (no_fields d ≡ false)
unfolding no_fields
Fields-cases end = inl refl
Fields-cases (field _ _ _) = inr refl

code_of-code_value : (c : FpErrorCode) → code_of (code_value c) ≡ some c
unfolding code_of code_value
code_of-code_value version_unsupported = refl
code_of-code_value auth_required = refl
code_of-code_value authz_denied = refl
code_of-code_value policy_denied = refl
code_of-code_value invalid_state_transition = refl
code_of-code_value not_found = refl
code_of-code_value rate_limited = refl
code_of-code_value backpressure = refl
code_of-code_value extension_required = refl
code_of-code_value internal_error = refl
code_of-code_value invalid_argument = refl
code_of-code_value conflict = refl
code_of-code_value already_exists = refl

to_dict-rebuilt :
    (e : FpError) (error : Fields)
    → rebuilt error (some (to_dict e)) (code_in (get_field (to_dict e) "code")) ≡ e
unfolding to_dict no_fields get_field default_message
to_dict-rebuilt e error = elim (Fields-cases e.details) [
  | inl p ↦ ground (arith, p, code_of-code_value e.code)
  | inr p ↦ ground (arith, p, code_of-code_value e.code)
]

-- What the caller of a handler sees over the transport.
abbrev pub outcome_of : Answer → CallResult
outcome_of (answered value) = returned value
outcome_of (failed e) = raised e
outcome_of (rejected detail) = raised (record {
  code = internal_error;
  message = "invalid params";
  details =
      field "remote_error" (obj (error_object "-32602" "invalid params" (detail_object detail)))
        end;
  retryable = false;
})
outcome_of (crashed detail) = raised (record {
  code = internal_error;
  message = "internal error";
  details =
      field "remote_error" (obj (error_object "-32603" "internal error" (detail_object detail)))
        end;
  retryable = false;
})

module _ (id : String) where
  -- What the client reads of a response that it was sent.
  read_respond :
      (answer : Answer) → read_response (respond (str id) (str id) answer) ≡ outcome_of answer
  unfolding read_response map_jsonrpc_error respond get_field
  read_respond (answered value) = refl
  read_respond (failed e) =
      ap raised (
        to_dict-rebuilt e
          (error_object "-32000" e.message (obj (field "fp" (obj (to_dict e)) end))))
  read_respond (rejected detail) = refl
  read_respond (crashed detail) = refl

module _ {S : Type 0} (casing : Casing) (table : Dict (Fields → S → Answer × S)) where
  -- A call in process of a method that the table has, whose name is not empty, runs its handler
  -- once on the parameters with their keys rewritten, keeps the handler's state, and gives the
  -- caller the handler's value, or its FPError with the same code, message, details and
  -- `retryable`, or INTERNAL_ERROR, with the error object in its details, for any other exception.
  pub call_outcome :
      (uuid method : String) (params : Fields) (handler : Fields → S → Answer × S) (s : S)
      → Dict.get table method ≡ some handler
      → (method == "") ≡ false
      → let (answer, after) = handler (received casing params) s in
        call casing table uuid method params s ≡ (outcome_of answer, after)
  unfolding call handle decode_request is_request_id get_field
  call_outcome uuid method params handler s known full =
      let (answer, after) = handler (received casing params) s in
      rw (full, known) (ap (λ r. (r, after)) (read_respond (cat "req-" uuid) answer))
