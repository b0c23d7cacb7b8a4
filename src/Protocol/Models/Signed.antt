-- ===== src/Protocol/Models/Signed.antt =====
-- Signed amounts over the native numbers, and the checks that the models share.
use foundation_protocol.Prelude.{ℕ, String, Bool, true, false, Option, none, some}
use foundation_protocol.Prelude.Texts.{is_blank}
use foundation_protocol.Protocol.Errors.{Result, invalid_argument, check}

-- `negsuc n` is -(n + 1).
pub data ℤ : Type 0 where
  pos : ℕ → ℤ
  negsuc : ℕ → ℤ

-- `x < 0`
abbrev pub is_negative : ℤ → Bool
is_negative (pos _) = false
is_negative (negsuc _) = true

-- `x is not None and x < 0`
abbrev pub some_negative : Option ℤ → Bool
some_negative none = false
some_negative (some x) = is_negative x

-- `_require_non_empty`, in front of the checks that follow it
unfoldable pub require_non_empty : {A : Type 0} → String → Result A → Result A
require_non_empty value rest = check (is_blank value) invalid_argument rest
