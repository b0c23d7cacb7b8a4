-- ===== src/Transport/JsonRpc.antt =====
-- `JSONRPCDispatcher.handle` of src/fp/transport/http_jsonrpc.py with the reading of requests. The table
-- of methods is an argument; what a handler returns is the JSON that `_as_jsonable` makes of it. Python's
-- `str.isupper` and `str.lower` of one character are parameters.
pub mod InProcess
use Prim.Native.Char.{Char, code}
use Prim.Native.String.{◌++◌ as cat}
use foundation_protocol.Prelude.{
  String, Bool, true, false, not, ◌&&◌, ◌||◌, Option, none, some, List, [], ◌∷◌, ◌==◌, leb, nat_eq,
  all_of, if◌then◌else◌,
}
use foundation_protocol.Prelude.Texts.{codes}
use foundation_protocol.Dict
use foundation_protocol.Dict.{Dict}
use foundation_protocol.Protocol.Errors.{
  FpErrorCode, version_unsupported, auth_required, authz_denied, policy_denied,
  invalid_state_transition, not_found, rate_limited, backpressure, extension_required,
  internal_error, invalid_argument, conflict, already_exists,
}
use foundation_protocol.Protocol.Json.{
  Json, null, bool, num, str, arr, obj, Items, nil, cons, Fields, end, field, get_field, put_field,
  no_fields,
}
use foundation_protocol.Protocol.Wire.{FpError, to_dict}

-- How a handler ends: `rejected` is a `KeyError`, `TypeError` or `ValueError`, and `crashed` another
-- exception, each with its text.
pub data Answer : Type 0 where
  answered : Json → Answer
  failed : FpError → Answer
  rejected : String → Answer
  crashed : String → Answer

pub record Casing : Type 0 where
  pub is_upper : Char → Bool
  pub lower : Char → String

pub record JsonRpcRequest : Type 0 where
  pub method : String
  pub params : Fields
  -- `None` is `null`
  pub id : Json

-- `_JSONRPCProtocolError`
pub record ProtocolError : Type 0 where
  pub code : String
  pub message : String
  pub request_id : Json

pub data Decoded : Type 0 where
  decoded : JsonRpcRequest → Decoded
  refused : ProtocolError → Decoded

-- `"…".lstrip("_")`
unfoldable strip_underscores : String → String
strip_underscores String.[] = ""
strip_underscores (String.◌∷◌ c s) =
    let rest = strip_underscores s in if nat_eq (code c) 95 then rest else String.◌∷◌ c s

-- `payload.get(key)`, where `None` and a missing key are one
abbrev or_null : Option Json → Json
or_null none = null
or_null (some value) = value

-- an `int`: digits, or a sign and digits; `True` and `False` are ints as well
abbrev is_digit_or_minus : String → Bool
is_digit_or_minus text = all_of (λ c. nat_eq c 45 || (leb 48 c && leb c 57)) (codes text)

unfoldable is_request_id : Json → Bool
is_request_id null = true
is_request_id (str _) = true
is_request_id (num n) = is_digit_or_minus n
is_request_id (bool _) = true
is_request_id _ = false

module _ (casing : Casing) where
  -- `_camel_to_snake`
  unfoldable snake : String → String
  snake String.[] = ""
  snake (String.◌∷◌ c s) =
      let rest = snake s in
      if casing.is_upper c then String.◌∷◌ "_" (cat (casing.lower c) rest) else String.◌∷◌ c rest

  unfoldable pub camel_to_snake : String → String
  unfolding snake strip_underscores
  camel_to_snake name = strip_underscores (snake name)

  unfoldable mutual
    unfolding camel_to_snake put_field

    -- `_normalize_keys`; of two keys that become one, the later value stays
    pub normalize_keys : Json → Json
    normalize_keys (obj d) = obj (normalize_fields end d)
    normalize_keys (arr items) = arr (normalize_items items)
    normalize_keys null = null
    normalize_keys (bool b) = bool b
    normalize_keys (num n) = num n
    normalize_keys (str s) = str s

    pub normalize_fields : Fields → Fields → Fields
    normalize_fields done end = done
    normalize_fields done (field key value d) =
        normalize_fields (put_field done (camel_to_snake key) (normalize_keys value)) d

    pub normalize_items : Items → Items
    normalize_items nil = nil
    normalize_items (cons value items) = cons (normalize_keys value) (normalize_items items)

  -- `params` that hold nothing but `params` are taken out of their wrapping.
  abbrev unwrapped : Fields → Fields
  unwrapped (field key (obj inner) end) =
      if key == "params" then inner else field key (obj inner) end
  unwrapped d = d

  abbrev refuse : String → String → Json → Decoded
  refuse code message id = refused (record { code = code; message = message; request_id = id })

  -- the parameters that a handler is given
  abbrev pub received : Fields → Fields
  received params = unwrapped (normalize_fields end params)

  abbrev with_params : String → Fields → Json → Decoded
  with_params method params id =
      if is_request_id id
      then decoded (record { method = method; params = received params; id = id })
      else refuse "-32600" "id must be string, number, or null" null

  abbrev read_params : String → Option Json → Json → Decoded
  read_params method none id = with_params method end id
  read_params method (some null) id = with_params method end id
  read_params method (some (obj params)) id = with_params method params id
  read_params method (some _) id = refuse "-32602" "params must be an object" id

  abbrev read_method : Option Json → Fields → Json → Decoded
  read_method (some (str method)) payload id =
      if method == ""
      then refuse "-32600" "method must be a non-empty string" id
      else read_params method (get_field payload "params") id
  read_method _ payload id = refuse "-32600" "method must be a non-empty string" id

  abbrev is_version : Option Json → Bool
  is_version (some (str version)) = version == "2.0"
  is_version _ = false

  -- `_decode_request`
  unfoldable pub decode_request : Json → Decoded
  unfolding get_field is_request_id normalize_fields
  decode_request (obj payload) =
      let id = or_null (get_field payload "id") in
      if is_version (get_field payload "jsonrpc")
      then read_method (get_field payload "method") payload id
      else refuse "-32600" "jsonrpc must be '2.0'" id
  decode_request _ = refuse "-32600" "request payload must be an object" null

-- `JSONRPCResponse(...).to_payload()`
abbrev pub result_response : Json → Json → Fields
result_response id result = field "jsonrpc" (str "2.0") (field "id" id (field "result" result end))

abbrev pub error_response : Json → String → String → Json → Fields
error_response id code message data_ = field "jsonrpc" (str "2.0") (
    field "id" id (
      field "error"
        (obj (field "code" (num code) (field "message" (str message) (field "data" data_ end))))
        end))

-- `if request_id is None: return None`
abbrev unless_null : Json → (Json → Fields) → Option Fields
unless_null null f = none
unless_null id f = some (f id)

abbrev request_id_of : Json → Json
request_id_of (obj payload) = or_null (get_field payload "id")
request_id_of _ = null

unfoldable pub respond : Json → Json → Answer → Option Fields
unfolding to_dict
respond id request_id (answered result) = unless_null id (λ i. result_response i result)
respond id request_id (failed e) =
    unless_null request_id
      λ i. error_response i "-32000" e.message (obj (field "fp" (obj (to_dict e)) end))
respond id request_id (rejected detail) =
    unless_null request_id
      λ i. error_response i "-32602" "invalid params" (obj (field "detail" (str detail) end))
respond id request_id (crashed detail) =
    unless_null request_id
      λ i. error_response i "-32603" "internal error" (obj (field "detail" (str detail) end))

module _ {S : Type 0} (casing : Casing) (table : Dict (Fields → S → Answer × S)) where
  abbrev pub refusal : ProtocolError → Fields
  refusal e = error_response e.request_id e.code e.message null

  abbrev call_handler :
      JsonRpcRequest → Json → Option (Fields → S → Answer × S) → S → Option Fields × S
  call_handler request request_id none s = (
    some (
        refusal (record {
          code = "-32601";
          message = cat "method not found: " request.method;
          request_id = request.id;
        })),
    s,
  )
  call_handler request request_id (some handler) s =
      let (answer, after) = handler request.params s in
      (respond request.id request_id answer, after)

  abbrev handle_decoded : Json → Decoded → S → Option Fields × S
  handle_decoded request_id (refused e) s = (some (refusal e), s)
  handle_decoded request_id (decoded request) s =
      call_handler request request_id (Dict.get table request.method) s

  unfoldable pub handle : Json → S → Option Fields × S
  unfolding decode_request respond get_field
  handle payload s = handle_decoded (request_id_of payload) (decode_request casing payload) s
