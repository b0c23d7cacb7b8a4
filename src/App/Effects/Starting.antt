-- ===== src/App/Effects/Starting.antt =====
-- The start of an activity is a sequence of calls of the activity engine, where the submission is one
-- whose session, owner and initiator are stored.
use foundation_protocol.Prelude.{
  ℕ, arith, suc, String, not, ◌≡◌, refl, inl, inr, Option, none, some, Bool-cases, ap, ◌∙◌, sym,
  subst,
}
use foundation_protocol.Protocol.Errors.{modify, pure, ◌>>=◌, ◌>>◌}
use foundation_protocol.Protocol.Rules.{Exec-cases, then_ok, then_err}
use foundation_protocol.Protocol.Models.Activities.{Activity, working}
use foundation_protocol.Protocol.Normalize.{state}
use foundation_protocol.Runtime.Revise.{Result-cases}
use foundation_protocol.Runtime.Activities
use foundation_protocol.Runtime.Dispatch.{Outcome, returned, raised, has_handler}
use foundation_protocol.Runtime.Compaction.{compact, CompactionResult}
use foundation_protocol.Stores.Stored.{Stored}
use foundation_protocol.App.State.{Environment, Stores, ServerState, Call, utc_now, enforce_policy}
use foundation_protocol.App.Quiet.{Core, core, emit_event-Keeps}
use foundation_protocol.App.Effects.Admission.{admit_cases}
use foundation_protocol.App.Effects.Policy.{behind_policy}
use foundation_protocol.App.Steps.{Step, stay, activity, Steps, done, step}
use foundation_protocol.App.Start.{
  ActivityStartRequest, Execute, still_working, result_payload, create_submitted, to_working,
  to_failed, to_completed, finish, auto_execute_if_possible, dispatch_context, start_decided,
  remembered, start_new, invocation, admit, start,
}

module _ (env : Environment) (stores : Stores) (r : ActivityStartRequest)
    (s : ServerState stores) where
  pub to_working_effect :
      (a : Activity) → Step stores (core s) (core (to_working env stores r a s).1)
  unfolding Activities.run to_working utc_now
  to_working_effect a =
      activity {a = core s}
        (Activities.transition_call a.activity_id (state working) none none
          (env.utc_now s.readings))
        tt (ground (arith, emit_event-Keeps env stores))

  to_failed_effect :
      (a : Activity) (message : String)
      → Step stores (core s) (core (to_failed env stores r a message s).1)
  unfolding Activities.run to_failed utc_now
  to_failed_effect a message =
      activity {a = core s}
        (Activities.fail_call a.activity_id message none (env.utc_now s.readings)) tt
        (ground (arith, emit_event-Keeps env stores))

  to_completed_effect :
      (a : Activity) (c : CompactionResult)
      → Step stores (core s) (core (to_completed env stores r a c s).1)
  unfolding Activities.run to_completed utc_now
  to_completed_effect a c =
      activity {a = core s}
        (Activities.complete_call a.activity_id c.inline_payload c.result_ref
          (env.utc_now s.readings))
        tt (ground (arith, emit_event-Keeps env stores))

  pub finish_effect :
      (a : Activity) (outcome : Outcome)
      → Step stores (core s) (core (finish env stores r a outcome s).1)
  unfolding finish
  finish_effect a (raised message) = to_failed_effect a message
  finish_effect a (returned output) = elim (Bool-cases (still_working output)) [
    | inl p ↦ stay (ground (arith, p))
    | inr p ↦
        subst (λ c. Step stores (core s) c) (ground (arith, p))
          (to_completed_effect a (compact env.encoders s.compactor (result_payload output)))
  ]

  abbrev pub Places : Type 0
  Places =
      Stored stores.sessions s.sessions r.session_id
      × Stored stores.entities s.entities r.owner_entity_id
      × Stored stores.entities s.entities r.initiator_entity_id

  pub create_submitted_effect :
      Places → Step stores (core s) (core (create_submitted env stores r s).1)
  unfolding Activities.run create_submitted utc_now
  create_submitted_effect placed =
      activity {a = core s}
        (Activities.start_call (record {
          activity_id = r.activity_id;
          session_id = r.session_id;
          owner_entity_id = r.owner_entity_id;
          initiator_entity_id = r.initiator_entity_id;
          operation = r.operation;
          input_payload = r.input_payload;
          created_at = env.utc_now s.readings;
          updated_at = env.utc_now (suc s.readings);
        }))
        placed (ground (arith, emit_event-Keeps env stores))

module _ (env : Environment) (stores : Stores) (r : ActivityStartRequest) where
  pub one : {a b : Core stores} → Step stores a b → Steps stores a b
  one h = step h done

  -- A handler is run where it is asked for and there is one: one step to WORKING, and one from there.
  auto_effect :
      (s : ServerState stores) (run_handler : Execute) (a : Activity)
      → Steps stores (core s) (core (auto_execute_if_possible env stores r run_handler a s).1)
  unfolding auto_execute_if_possible
  auto_effect s run_handler a = elim (Bool-cases (not r.auto_execute)) [
    | inl p ↦ one (stay (ground (arith, p)))
    | inr p ↦ elim (Bool-cases (not (has_handler s.dispatch r.operation))) [
      | inl q ↦ one (stay (ground (arith, p, q)))
      | inr q ↦ elim (Result-cases (to_working env stores r a s).0) [
        | inr (e, w) ↦
            subst (λ c. Steps stores (core s) c) (ground (arith, p, q, w))
              (one (to_working_effect env stores r s a))
        | inl (moved, w) ↦
            let t = (to_working env stores r a s).1 in
            let outcome =
              run_handler s.dispatch (dispatch_context env stores r moved) r.input_payload in
            subst (λ c. Steps stores (core s) c) (ground (arith, p, q, w))
              (step (to_working_effect env stores r s a)
                (one (finish_effect env stores r t moved outcome)))
      ]
    ]
  ]

  pub remembered_same :
      (key : Option String) (a : Activity) (s : ServerState stores)
      → core (remembered env stores r key a s) ≡ core s
  unfolding remembered
  remembered_same none a s = refl
  remembered_same (some key) a s = ground arith

  -- The steps of a call are those of its first part where what follows leaves the stores alone.
  pub then_effect :
      {A B : Type 0} (m : Call env stores A) (f : A → Call env stores B) (s : ServerState stores)
      → ((a : A) (t : ServerState stores) → core (f a t).1 ≡ core t)
      → Steps stores (core s) (core (m s).1)
      → Steps stores (core s) (core ((m >>= f) s).1)
  then_effect m f s quiet run = elim (Exec-cases m s) [
    | inr (e, p) ↦
        subst (λ c. Steps stores (core s) c) (sym (ap (λ x. core x.1) (then_err m f s (m s).1 e p)))
          run
    | inl (a, p) ↦
        subst (λ c. Steps stores (core s) c)
          (sym (ap (λ x. core x.1) (then_ok m f s (m s).1 a p) ∙ quiet a (m s).1)) run
  ]

  -- A first step, and the steps of what follows.
  pub first_effect :
      {A B : Type 0} (m : Call env stores A) (f : A → Call env stores B) (s : ServerState stores)
      → Step stores (core s) (core (m s).1)
      → ((a : A) (t : ServerState stores) → Steps stores (core t) (core (f a t).1))
      → Steps stores (core s) (core ((m >>= f) s).1)
  first_effect m f s first rest = elim (Exec-cases m s) [
    | inr (e, p) ↦
        subst (λ c. Steps stores (core s) c) (sym (ap (λ x. core x.1) (then_err m f s (m s).1 e p)))
          (one first)
    | inl (a, p) ↦
        subst (λ c. Steps stores (core s) c) (sym (ap (λ x. core x.1) (then_ok m f s (m s).1 a p)))
          (step first (rest a (m s).1))
  ]

  start_decided_effect :
      (run_handler : Execute) (s : ServerState stores)
      → Places env stores r s
      → Steps stores (core s) (core (start_decided env stores r run_handler s).1)
  unfolding start_decided
  start_decided_effect run_handler s placed =
      let auto = auto_execute_if_possible env stores r run_handler in
      let remember : Activity → Call env stores Activity =
        λ b. modify (remembered env stores r r.idempotency_key b) >> pure b in
      first_effect (create_submitted env stores r) (λ a. auto a >>= remember) s
        (create_submitted_effect env stores r s placed)
        λ a t.
          then_effect (auto a) remember t (remembered_same r.idempotency_key)
            (auto_effect t run_handler a)

  -- What is behind the policy decision, where it is a sequence of steps.
  pub new_effect :
      {A : Type 0} (decided : Call env stores A)
      → ((t : ServerState stores)
          → Places env stores r t
          → Steps stores (core t) (core (decided t).1))
      → (s : ServerState stores) → Places env stores r s
      → Steps stores
          (core s)
          (core ((enforce_policy env stores (invocation env stores r) >> decided) s).1)
  new_effect decided run s placed =
      behind_policy env stores s (invocation env stores r) decided (Steps stores)
        (λ a b p. one (stay p))
        λ t same. run t (rw (ap (λ c. c.sessions) same, ap (λ c. c.entities) same) placed)

  -- The checks in front of a new activity are no step.
  pub admit_effect :
      {A : Type 0} (question : ℕ) (cached : Activity → A) (new : Call env stores A)
      (s : ServerState stores)
      → (Places env stores r s → Steps stores (core s) (core (new s).1))
      → Steps stores (core s) (core (admit env stores r question cached new s).1)
  admit_effect question cached new s run = elim (admit_cases env stores r s question cached new) [
    | inl (e, p) ↦ one (stay (ap (λ x. core x.1) p))
    | inr (_, _, _, inl (a, p, _)) ↦ one (stay (ap (λ x. core x.1) p))
    | inr (session, admitted, _, inr p) ↦
        subst (λ c. Steps stores (core s) c) (sym (ap (λ x. core x.1) p))
          (run ((session, admitted.stored), admitted.owner, admitted.initiator))
  ]

  pub start_effect :
      (question : ℕ) (run_handler : Execute) (s : ServerState stores)
      → Steps stores (core s) (core (start env stores r question run_handler s).1)
  unfolding start start_new
  start_effect question run_handler s =
      admit_effect question (λ a. a) (start_new env stores r run_handler) s
        (new_effect (start_decided env stores r run_handler) (start_decided_effect run_handler) s)
