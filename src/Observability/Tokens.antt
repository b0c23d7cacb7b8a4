-- ===== src/Observability/Tokens.antt =====
-- src/fp/observability/token_meter.py. The length of the text that `json.dumps` gives for a payload is
-- a parameter.
use foundation_protocol.Prelude.{ℕ, ◌/◌, ltb, if◌then◌else◌}
use foundation_protocol.Protocol.Json.{Fields}

pub record TokenUsage : Type 0 where
  pub input_tokens : ℕ
  pub output_tokens : ℕ

module _ (text_length : Fields → ℕ) where
  -- `max(1, len(text) // 4)`
  unfoldable pub estimate_payload_tokens : Fields → ℕ
  estimate_payload_tokens payload =
      let tokens = text_length payload / 4 in if ltb tokens 1 then 1 else tokens

  unfoldable pub measure : Fields → Fields → TokenUsage
  unfolding estimate_payload_tokens
  measure input_payload output_payload = record {
    input_tokens = estimate_payload_tokens input_payload;
    output_tokens = estimate_payload_tokens output_payload;
  }
