-- ===== src/App/Effects/AsyncStarting.antt =====
-- The two calls of an asynchronous start are sequences of calls of the activity engine.
use foundation_protocol.Prelude.{ℕ, arith, not, ◌≡◌, refl, inl, inr, Bool-cases, subst}
use foundation_protocol.Protocol.Errors.{modify, pure, ◌>>=◌, ◌>>◌}
use foundation_protocol.Protocol.Models.Activities.{Activity}
use foundation_protocol.Runtime.Dispatch.{DispatchEngine, Outcome, has_handler}
use foundation_protocol.App.State.{Environment, Stores, ServerState}
use foundation_protocol.App.Quiet.{core}
use foundation_protocol.App.Steps.{stay, Steps}
use foundation_protocol.App.Start.{ActivityStartRequest, create_submitted, finish, remembered}
use foundation_protocol.App.AsyncStart.{
  Progress, ended, waiting, begin_execution, keep_ended, begin_decided, begin_new, begin_start,
  resume_start,
}
use foundation_protocol.App.Effects.Starting.{
  to_working_effect, finish_effect, Places, create_submitted_effect, one, remembered_same,
  then_effect, first_effect, new_effect, admit_effect,
}

module _ (env : Environment) (stores : Stores) (r : ActivityStartRequest) where
  begin_execution_effect :
      (dispatch : DispatchEngine) (a : Activity) (s : ServerState stores)
      → Steps stores (core s) (core (begin_execution env stores r dispatch a s).1)
  unfolding begin_execution
  begin_execution_effect dispatch a s = elim (Bool-cases (not r.auto_execute)) [
    | inl p ↦ one env stores r (stay (ground (arith, p)))
    | inr p ↦ elim (Bool-cases (not (has_handler dispatch r.operation))) [
      | inl q ↦ one env stores r (stay (ground (arith, p, q)))
      | inr q ↦
          subst (λ c. Steps stores (core s) c) (ground (arith, p, q))
            (one env stores r (to_working_effect env stores r s a))
    ]
  ]

  keep_ended_same :
      (progress : Progress) (s : ServerState stores)
      → core (keep_ended env stores r progress s).1 ≡ core s
  unfolding keep_ended
  keep_ended_same (ended a) s = remembered_same env stores r r.idempotency_key a s
  keep_ended_same (waiting a outcome) s = refl

  begin_decided_effect :
      (dispatch : DispatchEngine) (s : ServerState stores)
      → Places env stores r s
      → Steps stores (core s) (core (begin_decided env stores r dispatch s).1)
  unfolding begin_decided
  begin_decided_effect dispatch s placed =
      let execution = begin_execution env stores r dispatch in
      first_effect env stores r (create_submitted env stores r)
        (λ a. execution a >>= keep_ended env stores r) s
        (create_submitted_effect env stores r s placed)
        λ a t.
          then_effect env stores r (execution a) (keep_ended env stores r) t keep_ended_same
            (begin_execution_effect dispatch a t)

  pub begin_effect :
      (question : ℕ) (dispatch : DispatchEngine) (s : ServerState stores)
      → Steps stores (core s) (core (begin_start env stores r question dispatch s).1)
  unfolding begin_start begin_new
  begin_effect question dispatch s =
      admit_effect env stores r question ended (begin_new env stores r dispatch) s (
        new_effect env stores r (begin_decided env stores r dispatch)
          (begin_decided_effect dispatch) s)

  pub resume_effect :
      (waited : Activity) (outcome : Outcome) (s : ServerState stores)
      → Steps stores (core s) (core (resume_start env stores r waited outcome s).1)
  unfolding resume_start
  resume_effect waited outcome s =
      then_effect env stores r (finish env stores r waited outcome)
        (λ b. modify (remembered env stores r r.idempotency_key b) >> pure b) s
        (remembered_same env stores r r.idempotency_key)
        (one env stores r (finish_effect env stores r s waited outcome))
