-- ===== src/App/Retry.antt =====
-- A start that is sent again under the same key.
use foundation_protocol.Prelude.{
  ℕ, arith, String, false, ◌≡◌, ◌⊎◌, inl, inr, Option, some, ◌==◌, ap, ◌∙◌, sym, subst, eq_refl,
  Bool-cases, Option-cases,
}
use foundation_protocol.Protocol.Errors.{ok, err, Error}
use foundation_protocol.Protocol.Models.Activities.{Activity}
use foundation_protocol.Protocol.Models.Sessions.{Session}
use foundation_protocol.Runtime.Idempotency.{check-store}
use foundation_protocol.Observability.Tokens.{estimate_payload_tokens}
use foundation_protocol.Runtime.Revise.{Result-cases}
use foundation_protocol.App.State.{Environment, Stores, Enforcer, ServerState}
use foundation_protocol.App.Start.{
  ActivityStartRequest, Execute, fingerprint, budget_question, exceeds, enforce_token_budget,
  check_idempotency, remembered, start, start_new,
}
use foundation_protocol.App.Effects.Admission.{
  Admitted, budget, admit_cases, start_cached, start_refused,
}
use foundation_protocol.App.Frames.{ok_injective, frame, start_new-Finished}

module _ (env : Environment) (stores : Stores) (r : ActivityStartRequest) where
  remembered-Keeps :
      (a : Activity) (s : ServerState stores)
      → frame (remembered env stores r r.idempotency_key a s) ≡ frame s
  unfolding remembered
  remembered-Keeps a s = ground arith

  check-remembered :
      (key : String) (a : Activity) (s : ServerState stores)
      → (key == "") ≡ false
      → let t = remembered env stores r (some key) a s in
        check_idempotency env stores r (some key) t ≡ (ok (some a), t)
  unfolding remembered check_idempotency
  check-remembered key a s full = ground (
    arith,
    full,
    check-store s.idempotency key key a (fingerprint env stores r) (fingerprint env stores r),
    eq_refl key,
    eq_refl (fingerprint env stores r),
  )

  check_there :
      (given : Option String) (key : String) (a : Activity) (s t : ServerState stores)
      → given ≡ some key
      → (key == "") ≡ false
      → t ≡ remembered env stores r given a s
      → check_idempotency env stores r given t ≡ (ok (some a), t)
  check_there given key a s t keyed full stored =
      subst (λ u. check_idempotency env stores r given u ≡ (ok (some a), u)) (sym stored)
        (subst
          (λ k.
            let u = remembered env stores r k a s in
            check_idempotency env stores r k u ≡ (ok (some a), u))
          (sym keyed) (check-remembered key a s full))

  -- The checks read no more than the frame.
  frame-Admitted :
      (session : Session) (s t : ServerState stores)
      → frame t ≡ frame s
      → Admitted env stores r s session
      → Admitted env stores r t session
  frame-Admitted session s t same admitted =
      let entities : t.entities ≡ s.entities = ap (λ f. f.entities) same in
      let sessions : t.sessions ≡ s.sessions = ap (λ f. f.sessions) same in
      record {
        owner = rw entities admitted.owner;
        initiator = rw entities admitted.initiator;
        stored = rw sessions admitted.stored;
        is_active = admitted.is_active;
        owner_takes_part = admitted.owner_takes_part;
        initiator_takes_part = admitted.initiator_takes_part;
      }

  -- The enforcer refuses the question of this number.
  pub record IsRefused (question : ℕ) (s : ServerState stores) (e : Error) : Type 0 where
    pub enforcer : Enforcer
    pub session : Session
    pub asked : s.token_budget_enforcer ≡ some enforcer
    pub stored : stores.sessions.get s.sessions r.session_id ≡ some session
    pub answers :
        enforcer question (budget_question env stores session r.operation r.input_payload) ≡ err e

  -- What is within the limit once is within it again, so that the enforcer alone may refuse it.
  budget_again :
      (first again : ℕ) (session : Session) (s t : ServerState stores)
      → stores.sessions.get t.sessions r.session_id ≡ some session
      → budget env stores r s first session s ≡ (ok tt, s)
      → (budget env stores r t again session t ≡ (ok tt, t))
        ⊎ ((e : Error) × IsRefused again t e × (budget env stores r t again session t ≡ (err e, t)))
  unfolding enforce_token_budget
  budget_again first again session s t stored h =
      let question = budget_question env stores session r.operation r.input_payload in
      let over =
        exceeds (estimate_payload_tokens env.text_length r.input_payload)
          session.budget.token_limit in
      elim (Bool-cases over) [
        | inl p ↦ ground (arith, p, ap (λ x. x.0) h)
        | inr p ↦ elim (Option-cases t.token_budget_enforcer) [
          | inl none_set ↦ inl (ground (arith, p, none_set))
          | inr (enforcer, set) ↦ elim (Result-cases (enforcer again question)) [
            | inl (_, q) ↦ inl (ground (arith, p, set, q))
            | inr (e, q) ↦ inr (
              e,
              record {
                enforcer = enforcer;
                session = session;
                asked = set;
                stored = stored;
                answers = q;
              },
              ground (arith, p, set, q),
            )
          ]
        ]
      ]

  -- A start whose key is known, where it has been within the budget before.
  start_known :
      (first again : ℕ) (run_handler : Execute) (session : Session) (s t : ServerState stores)
      (a : Activity)
      → Admitted env stores r t session
      → budget env stores r s first session s ≡ (ok tt, s)
      → check_idempotency env stores r r.idempotency_key t ≡ (ok (some a), t)
      → (start env stores r again run_handler t ≡ (ok a, t))
        ⊎ ((e : Error) × IsRefused again t e
            × (start env stores r again run_handler t ≡ (err e, t)))
  start_known first again run_handler session s t a admitted in_budget found =
      elim (budget_again first again session s t admitted.stored in_budget) [
        | inl within ↦
            inl (start_cached env stores r t again run_handler session a admitted within found)
        | inr (e, refused, over) ↦
            inr (e, refused, start_refused env stores r t again run_handler session e admitted over)
      ]

  -- A start under a key that is not empty which returned an activity returns the same activity when
  -- it is sent again, or raises what the enforcer of token budgets answers this time, where one is
  -- set and refuses the question, and changes nothing in the server then. The two starts may ask
  -- the enforcer different numbers, so that it may keep a state of its own.
  pub start_again :
      (first again : ℕ) (run_handler : Execute) (key : String) (s t : ServerState stores)
      (a : Activity)
      → r.idempotency_key ≡ some key
      → (key == "") ≡ false
      → start env stores r first run_handler s ≡ (ok a, t)
      → (start env stores r again run_handler t ≡ (ok a, t))
        ⊎ ((e : Error) × IsRefused again t e
            × (start env stores r again run_handler t ≡ (err e, t)))
  unfolding start
  start_again first again run_handler key s t a keyed full h =
      elim (admit_cases env stores r s first (λ b. b) (start_new env stores r run_handler)) [
        | inl (e, p) ↦ let clash : ok a ≡ err e = ap (λ x. x.0) (sym h ∙ p) in cc (clash)
        | inr (session, admitted, in_budget, inl (b, p, found)) ↦
            let result = sym h ∙ p in
            let same : t ≡ s = ap (λ x. x.1) result in
            let same_activity : a ≡ b = ok_injective (ap (λ x. x.0) result) in
            start_known first again run_handler session s t a (rw same admitted) in_budget
              (rw (same, same_activity) found)
        | inr (session, admitted, in_budget, inr p) ↦
            let done = start_new-Finished env stores r run_handler s t a (sym p ∙ h) in
            let same : frame t ≡ frame s =
              ap frame done.stored ∙ remembered-Keeps a done.middle ∙ done.same in
            start_known first again run_handler session s t a
              (frame-Admitted session s t same admitted) in_budget
              (check_there r.idempotency_key key a done.middle t keyed full done.stored)
      ]
