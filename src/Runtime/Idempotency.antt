-- ===== src/Runtime/Idempotency.antt =====
-- src/fp/runtime/idempotency.py: the results of calls that were made before, under the callers' keys.
use foundation_protocol.Prelude.{
  String, ◌≡◌, not, Option, none, some, [], arith, ◌==◌, eq_iff, if◌then◌else◌,
}
use foundation_protocol.Dict
use foundation_protocol.Dict.{Dict}
use foundation_protocol.Dict.Laws.{get-put}
use foundation_protocol.Protocol.Errors.{Result, ok, err, fp_error, conflict}

-- `_Entry`
pub record Entry (T : Type 0) : Type 0 where
  pub fingerprint : String
  pub value : T

pub record IdempotencyGuard (T : Type 0) : Type 0 where
  pub cache : Dict (Entry T)

abbrev pub empty : {T : Type 0} → IdempotencyGuard T
empty = record { cache = [] }

-- A hit is the value of the entry.
abbrev hit : {T : Type 0} → Option String → Option (Entry T) → Result (Option T)
hit fingerprint none = ok none
hit none (some entry) = ok (some entry.value)
hit (some fingerprint) (some entry) =
    if not (entry.fingerprint == fingerprint)
    then err (fp_error conflict)
    else ok (some entry.value)

unfoldable pub check :
    {T : Type 0} → IdempotencyGuard T → String → Option String → Result (Option T)
check guard key fingerprint = hit fingerprint (Dict.get guard.cache key)

unfoldable pub store : {T : Type 0} → IdempotencyGuard T → String → T → String → IdempotencyGuard T
store guard key value fingerprint = record {
  cache = Dict.put guard.cache key (record { fingerprint = fingerprint; value = value });
}

-- After a result is stored, a check of its key returns it if the fingerprint is the same and raises
-- CONFLICT otherwise; a check of another key is answered as before.
pub check-store :
    {T : Type 0} (guard : IdempotencyGuard T) (key other : String) (value : T)
    (fingerprint given : String)
    → check (store guard key value fingerprint) other (some given) ≡ (
        if key == other
        then if fingerprint == given then ok (some value) else err (fp_error conflict)
        else check guard other (some given))
unfolding check store
check-store guard key other value fingerprint given = ground (
  arith,
  get-put guard.cache key other (record { fingerprint = fingerprint; value = value }),
  eq_iff key other,
)
