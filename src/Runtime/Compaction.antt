-- ===== src/Runtime/Compaction.antt =====
-- src/fp/runtime/context_compaction.py: a large result is replaced by a summary and a reference. The
-- bytes of `json.dumps`, the digest, the decoded preview and the text of a number are parameters.
use Prim.Native.String.{◌++◌ as cat}
use foundation_protocol.Prelude.{
  ℕ, zero, String, Bool, true, false, Option, none, some, List, length, leb, take, if◌then◌else◌,
}
use foundation_protocol.Protocol.Errors.{Result, ok, err, value_error}
use foundation_protocol.Protocol.Json.{bool, num, str, Fields, end, field}

pub record CompactionResult : Type 0 where
  pub inline_payload : Option Fields
  pub result_ref : Option String
  pub compacted : Bool
  pub raw_bytes : ℕ
  pub digest : Option String

pub record ContextCompactor : Type 0 where
  pub max_inline_bytes : Option ℕ
  pub preview_chars : ℕ

-- `__init__`
unfoldable pub init_compactor : Option ℕ → ℕ → Result ContextCompactor
init_compactor (some zero) preview_chars = err value_error
init_compactor _ zero = err value_error
init_compactor max_inline_bytes preview_chars =
    ok (record { max_inline_bytes = max_inline_bytes; preview_chars = preview_chars })

-- What the code takes from Python's library.
pub record Encoders : Type 0 where
  -- `json.dumps(payload, sort_keys=True, …).encode("utf-8")`
  pub encode : Fields → List ℕ
  -- `hashlib.sha256(raw).hexdigest()`
  pub sha256 : List ℕ → String
  -- `raw.decode("utf-8", errors="replace")`
  pub decode : List ℕ → String
  -- the text of a whole number
  pub decimal : ℕ → String

-- `max_inline_bytes is None or len(raw) <= max_inline_bytes`
abbrev pub fits : Option ℕ → ℕ → Bool
fits none size = true
fits (some most) size = leb size most

module _ (encoders : Encoders) (compactor : ContextCompactor) where
  abbrev summary : List ℕ → Fields
  summary raw = field "compacted" (bool true) (
      field "digest" (str (encoders.sha256 raw)) (
        field "bytes" (num (encoders.decimal (length raw)))
          (field "preview" (str (encoders.decode (take compactor.preview_chars raw))) end)))

  unfoldable pub compact : Fields → CompactionResult
  compact payload =
      let raw = encoders.encode payload in
      if fits compactor.max_inline_bytes (length raw)
      then record {
        inline_payload = some payload;
        result_ref = none;
        compacted = false;
        raw_bytes = length raw;
        digest = none;
      }
      else record {
        inline_payload = some (summary raw);
        result_ref = some (cat "sha256://" (encoders.sha256 raw));
        compacted = true;
        raw_bytes = length raw;
        digest = some (encoders.sha256 raw);
      }
