-- ===== src/Protocol/Errors.antt =====
-- Error codes (src/fp/protocol/errors.py), and methods that change an object and may raise.
use foundation_protocol.Prelude.{Bool, true, false}

pub data FpErrorCode : Type 0 where
  version_unsupported auth_required authz_denied policy_denied invalid_state_transition :
      FpErrorCode
  not_found rate_limited backpressure extension_required internal_error : FpErrorCode
  invalid_argument conflict already_exists : FpErrorCode

-- A raised exception: an `FPError` by its code (its message and details are for people), or
-- Python's `ValueError`.
pub data Error : Type 0 where
  fp_error : FpErrorCode → Error
  value_error : Error

pub data Result {ℓ} (A : Type ℓ) : Type ℓ where
  ok : A → Result A
  err : Error → Result A

-- A method over an object in state `S`. What was written before a raise stays written, so the
-- state comes back beside an error too.
abbrev pub Exec {ℓ κ} : Type ℓ → Type κ → Type (ℓ ⊔ κ)
Exec S A = S → Result A × S

module _ {ℓ κ} {S : Type ℓ} {A : Type κ} where
  abbrev pub pure : A → Exec S A
  pure a s = (ok a, s)

  abbrev pub raise : FpErrorCode → Exec S A
  raise c s = (err (fp_error c), s)

  -- a pure function that may raise
  abbrev pub lift : Result A → Exec S A
  lift r s = (r, s)

  abbrev pub gets : (S → A) → Exec S A
  gets f s = (ok (f s), s)

module _ {ℓ} {S : Type ℓ} where
  abbrev pub modify : (S → S) → Exec S (Unit {0})
  modify f s = (ok tt, f s)

  -- `if b: raise`
  abbrev pub raise_if : Bool → FpErrorCode → Exec S (Unit {0})
  raise_if true c s = (err (fp_error c), s)
  raise_if false c s = (ok tt, s)

module _ {ℓ κ μ} {S : Type ℓ} {A : Type κ} {B : Type μ} where
  infixl 5 ◌>>=◌ ◌>>◌
  abbrev pub continue : Result A → (A → Exec S B) → Exec S B
  continue (ok a) f s = f a s
  continue (err c) f s = (err c, s)

  abbrev pub ◌>>=◌ : Exec S A → (A → Exec S B) → Exec S B
  ◌>>=◌ m f s = let (r, s') = m s in continue r f s'

  abbrev pub ◌>>◌ : Exec S A → Exec S B → Exec S B
  m >> k = m >>= λ _. k

-- `raise` in a pure function
abbrev pub check : {A : Type 0} → Bool → FpErrorCode → Result A → Result A
check true c r = err (fp_error c)
check false c r = r

-- A method of a component, run on the part of the state that the component owns.
abbrev pub zoom : {S T A : Type 0} → (S → T) → (S → T → S) → Exec T A → Exec S A
zoom view update m s = let (r, t) = m (view s) in (r, update s t)
