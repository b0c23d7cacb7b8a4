-- ===== src/App/Frames.antt =====
-- What the checks of a start read, the entities and the sessions, is left alone by the start of an
-- activity.
use foundation_protocol.Prelude.{arith, String, not, ◌≡◌, inl, inr, ap, ◌∙◌, sym, Bool-cases}
use foundation_protocol.Protocol.Errors.{ok, pure, modify, ◌>>=◌, ◌>>◌}
use foundation_protocol.Protocol.Rules.{Quiet, then_returns, then-Quiet}
use foundation_protocol.Protocol.Models.Activities.{Activity}
use foundation_protocol.Runtime.Dispatch.{Outcome, returned, raised, has_handler}
use foundation_protocol.Runtime.Compaction.{CompactionResult, compact}
use foundation_protocol.App.State.{
  Environment, Stores, ServerState, Call, NewEvent, new_id, fresh, utc_now, count, publish_checked,
  emit_event, enforce_policy,
}
use foundation_protocol.App.Start.{
  ActivityStartRequest, Execute, still_working, result_payload, create_submitted, to_working,
  to_failed, to_completed, finish, remembered, auto_execute_if_possible, dispatch_context,
  start_decided, start_new, invocation,
}
use foundation_protocol.App.Decisions.{enforce_policy_lem}

pub ok_injective : {A : Type 0} {a b : A} → ok a ≡ ok b → a ≡ b
ok_injective h = cc (h)

-- What the checks of a start read.
pub record Frame (stores : Stores) : Type 0 where
  pub entities : stores.entities.State
  pub sessions : stores.sessions.State

abbrev pub frame : {stores : Stores} → ServerState stores → Frame stores
frame s = record { entities = s.entities; sessions = s.sessions }

module _ (env : Environment) (stores : Stores) where
  abbrev Keeps : {A : Type 0} → Call env stores A → Type 0
  Keeps m = Quiet (frame {stores = stores}) m

  emit_event-Keeps : (n : NewEvent) → Keeps (emit_event env stores n)
  unfolding emit_event publish_checked new_id fresh count utc_now
  emit_event-Keeps n s = ground arith

module _ (env : Environment) (stores : Stores) where
  module _ (r : ActivityStartRequest) where
    create_submitted-Keeps : Keeps env stores (create_submitted env stores r)
    unfolding create_submitted utc_now
    create_submitted-Keeps s = ground (arith, emit_event-Keeps env stores)

    to_working-Keeps : (a : Activity) → Keeps env stores (to_working env stores r a)
    unfolding to_working utc_now
    to_working-Keeps a s = ground (arith, emit_event-Keeps env stores)

    to_failed-Keeps :
        (a : Activity) (message : String) → Keeps env stores (to_failed env stores r a message)
    unfolding to_failed utc_now
    to_failed-Keeps a message s = ground (arith, emit_event-Keeps env stores)

    to_completed-Keeps :
        (a : Activity) (c : CompactionResult) → Keeps env stores (to_completed env stores r a c)
    unfolding to_completed utc_now
    to_completed-Keeps a c s = ground (arith, emit_event-Keeps env stores)

    finish-Keeps :
        (a : Activity) (outcome : Outcome) → Keeps env stores (finish env stores r a outcome)
    unfolding finish
    finish-Keeps a (raised message) s = to_failed-Keeps a message s
    finish-Keeps a (returned output) s = elim (Bool-cases (still_working output)) [
      | inl p ↦ ground (arith, p)
      | inr p ↦ ground (
        arith,
        p,
        to_completed-Keeps a (compact env.encoders s.compactor (result_payload output)) s,
      )
    ]

    auto-Keeps :
        (run_handler : Execute) (a : Activity)
        → Keeps env stores (auto_execute_if_possible env stores r run_handler a)
    unfolding auto_execute_if_possible
    auto-Keeps run_handler a s = elim (Bool-cases (not r.auto_execute)) [
      | inl p ↦ ground (arith, p)
      | inr p ↦ elim (Bool-cases (not (has_handler s.dispatch r.operation))) [
        | inl q ↦ ground (arith, p, q)
        | inr q ↦
            let f : Activity → Call env stores Activity = λ moved.
              finish env stores r moved
                (run_handler s.dispatch (dispatch_context env stores r moved) r.input_payload) in
            let goes : auto_execute_if_possible env stores r run_handler a s
                ≡ (to_working env stores r a >>= f) s =
              ground (arith, p, q) in
            ap (λ x. frame x.1) goes
            ∙ then-Quiet frame (to_working env stores r a) f (to_working-Keeps a)
                (λ moved.
                  finish-Keeps moved
                    (run_handler s.dispatch (dispatch_context env stores r moved) r.input_payload))
                s
      ]
    ]

    -- A new start that returns an activity has stored it under the key, and has left alone what the
    -- checks read.
    pub record Finished (s t : ServerState stores) (a : Activity) : Type 0 where
      pub middle : ServerState stores
      pub stored : t ≡ remembered env stores r r.idempotency_key a middle
      pub same : frame middle ≡ frame s

    start_decided-Finished :
        (run_handler : Execute) (s t : ServerState stores) (a : Activity)
        → start_decided env stores r run_handler s ≡ (ok a, t)
        → Finished s t a
    unfolding start_decided
    start_decided-Finished run_handler s t a h =
        let m = create_submitted env stores r in
        let auto = auto_execute_if_possible env stores r run_handler in
        let f : Activity → Call env stores Activity =
          λ b. modify (remembered env stores r r.idempotency_key b) >> pure b in
        let (b, u, p, rest) = then_returns m (λ x. auto x >>= f) s t a h in
        let (c, v, q, last) = then_returns (auto b) f u t a rest in
        let same_activity : c ≡ a = ok_injective (ap (λ x. x.0) last) in
        record {
          middle = v;
          stored =
              sym (ap (λ x. x.1) last)
              ∙ ap (λ x. remembered env stores r r.idempotency_key x v) same_activity;
          same =
              sym (ap (λ x. frame x.1) q)
              ∙ auto-Keeps run_handler b u
              ∙ sym (ap (λ x. frame x.1) p)
              ∙ create_submitted-Keeps s;
        }

    pub start_new-Finished :
        (run_handler : Execute) (s t : ServerState stores) (a : Activity)
        → start_new env stores r run_handler s ≡ (ok a, t)
        → Finished s t a
    unfolding start_new
    start_new-Finished run_handler s t a h =
        let enforce = enforce_policy env stores (invocation env stores r) in
        let (u, v, p, rest) =
          then_returns enforce (λ _. start_decided env stores r run_handler) s t a h in
        let done = start_decided-Finished run_handler v t a rest in
        let recorded : frame v ≡ frame s =
          ap (λ x. frame x.1) (sym p ∙ enforce_policy_lem env stores (invocation env stores r) s) in
        record { middle = done.middle; stored = done.stored; same = done.same ∙ recorded }
