-- ===== src/Tests/Transport.antt =====
-- A method that counts its calls and fails once it has been called before.

use Prim.Native.Char.{code}
use foundation_protocol.Prelude.{ℕ, true, [], ◌∷◌, ◌≡◌, refl, leb, nat_eq, if◌then◌else◌, ◌+◌}
use foundation_protocol.Dict.{Dict}
use foundation_protocol.Protocol.Errors.{rate_limited}
use foundation_protocol.Protocol.Json.{str, obj, Fields, field, end}
use foundation_protocol.Protocol.Wire.{FpError}
use foundation_protocol.Transport.JsonRpc.{Answer, answered, failed, Casing}
use foundation_protocol.Transport.JsonRpc.InProcess.{call, raised, call_outcome}

-- One letter, I, has an upper case.
abbrev casing : Casing
casing = record { is_upper = λ c. nat_eq (code c) 73; lower = λ c. "i" }

abbrev limited : Fields → FpError
limited params = record {
  code = rate_limited;
  message = "one call is allowed";
  details = params;
  retryable = true;
}

abbrev once : Fields → ℕ → Answer × ℕ
once params n = (if leb 1 n then failed (limited params) else answered (obj params), n + 1)

abbrev table : Dict (Fields → ℕ → Answer × ℕ)
table = ("fp/once", once) ∷ []

call_outcome_example :
    call casing table "7" "fp/once" (field "noteId" (str "a") end) 1
    ≡ (raised (limited (field "note_id" (str "a") end)), 2)
unfolding foundation_protocol.Dict.get foundation_protocol.Transport.JsonRpc.normalize_fields
call_outcome_example =
    call_outcome casing table "7" "fp/once" (field "noteId" (str "a") end) once 1 refl refl
