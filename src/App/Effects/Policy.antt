-- ===== src/App/Effects/Policy.antt =====
-- A call of the server that asks the policy engine first: it ends there, or goes on from a state in
-- which the decision has changed none of the stores whose objects refer to each other.
use foundation_protocol.Prelude.{◌≡◌, ◌⊎◌, inl, inr, arith, ap, subst}
use foundation_protocol.Protocol.Errors.{ok, err, Error, ◌>>◌}
use foundation_protocol.Policy.{PolicyContext}
use foundation_protocol.Runtime.Revise.{Result-cases}
use foundation_protocol.App.State.{Environment, Stores, ServerState, Call, enforce_policy}
use foundation_protocol.App.Quiet.{Core, core, enforce_policy-Keeps}

module _ (env : Environment) (stores : Stores) (s : ServerState stores) where
  -- The policy engine lets the call pass and has changed none of these stores, or the call ends.
  pub enforce_cases :
      (context : PolicyContext)
      → (t : ServerState stores) × (core t ≡ core s)
        × ((enforce_policy env stores context s ≡ (ok tt, t))
            ⊎ ((e : Error) × (enforce_policy env stores context s ≡ (err e, t))))
  enforce_cases context = (
    (enforce_policy env stores context s).1,
    enforce_policy-Keeps env stores context s,
    elim (Result-cases (enforce_policy env stores context s).0) [
      | inl (tt, p) ↦ inl (ap (λ r. (r, (enforce_policy env stores context s).1)) p)
      | inr (e, p) ↦ inr (e, ap (λ r. (r, (enforce_policy env stores context s).1)) p)
    ],
  )

  pub behind_policy :
      {A : Type 0} (context : PolicyContext) (rest : Call env stores A)
      (R : Core stores → Core stores → Type 0)
      → ((a b : Core stores) → b ≡ a → R a b)
      → ((t : ServerState stores) → core t ≡ core s → R (core t) (core (rest t).1))
      → R (core s) (core ((enforce_policy env stores context >> rest) s).1)
  behind_policy context rest R stays h =
      let (t, same, ends) = enforce_cases context in
      elim ends [
        | inr (e, p) ↦ stays (core s) _ (ground (arith, p, same))
        | inl p ↦
            let there : core (rest t).1 ≡ core ((enforce_policy env stores context >> rest) s).1 =
              ground (arith, p) in
            subst (R (core s)) there (subst (λ c. R c (core (rest t).1)) same (h t same))
      ]
