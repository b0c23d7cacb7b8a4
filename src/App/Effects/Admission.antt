-- ===== src/App/Effects/Admission.antt =====
-- The checks in front of the start of an activity change nothing, and what passes them.
use foundation_protocol.Prelude.{
  ℕ, arith, String, true, ◌≡◌, refl, ◌⊎◌, inl, inr, Option, none, some, Option-cases, Bool-cases,
  ◌∙◌,
}
use foundation_protocol.TextSet.{contains}
use foundation_protocol.Protocol.Errors.{
  Result, ok, err, Error, fp_error, not_found, invalid_state_transition, authz_denied, ◌>>=◌, ◌>>◌,
}
use foundation_protocol.Protocol.Models.Activities.{Activity}
use foundation_protocol.Protocol.Models.Sessions.{Session, active}
use foundation_protocol.Protocol.Rules.{then_ok, then_err}
use foundation_protocol.Runtime.Revise.{fetch, Result-cases}
use foundation_protocol.Runtime.Sessions.{same_state}
use foundation_protocol.Stores.Stored.{Stored}
use foundation_protocol.App.State.{Environment, Stores, ServerState, Call, require_entity}
use foundation_protocol.App.Start.{
  ActivityStartRequest, Execute, validate, enforce_token_budget, check_idempotency, start_new,
  unless_cached, admit, start,
}

-- two equal components
ap2 : {A B : Type 0} {a a' : A} {b b' : B} → a ≡ a' → b ≡ b' → ◌≡◌ {A = A × B} (a, b) (a', b')
ap2 p q = cc (p, q)

module _ (env : Environment) (stores : Stores) (r : ActivityStartRequest)
    (s : ServerState stores) where
  -- What `validate` has checked of the session that it returns.
  pub record Admitted (session : Session) : Type 0 where
    pub owner : Stored stores.entities s.entities r.owner_entity_id
    pub initiator : Stored stores.entities s.entities r.initiator_entity_id
    pub stored : stores.sessions.get s.sessions r.session_id ≡ some session
    pub is_active : same_state session.state active ≡ true
    pub owner_takes_part : contains session.participants r.owner_entity_id ≡ true
    pub initiator_takes_part : contains session.participants r.initiator_entity_id ≡ true

  pub validate_cases :
      ((e : Error) × (validate env stores r s ≡ (err e, s)))
      ⊎ ((session : Session) × (validate env stores r s ≡ (ok session, s)) × Admitted session)
  unfolding validate require_entity fetch
  validate_cases = elim (Option-cases (stores.entities.get s.entities r.owner_entity_id)) [
    | inl p ↦ inl (fp_error not_found, ground (arith, p))
    | inr (owner, p) ↦ elim (Option-cases (stores.entities.get s.entities r.initiator_entity_id)) [
      | inl q ↦ inl (fp_error not_found, ground (arith, p, q))
      | inr (initiator, q) ↦ elim (Option-cases (stores.sessions.get s.sessions r.session_id)) [
        | inl w ↦ inl (fp_error not_found, ground (arith, p, q, w))
        | inr (session, w) ↦ elim (Bool-cases (same_state session.state active)) [
          | inr x ↦ inl (fp_error invalid_state_transition, ground (arith, p, q, w, x))
          | inl x ↦ elim (Bool-cases (contains session.participants r.owner_entity_id)) [
            | inr y ↦ inl (fp_error authz_denied, ground (arith, p, q, w, x, y))
            | inl y ↦ elim (Bool-cases (contains session.participants r.initiator_entity_id)) [
              | inr z ↦ inl (fp_error authz_denied, ground (arith, p, q, w, x, y, z))
              | inl z ↦ inr (
                session,
                ground (arith, p, q, w, x, y, z),
                record {
                  owner = (owner, p);
                  initiator = (initiator, q);
                  stored = w;
                  is_active = x;
                  owner_takes_part = y;
                  initiator_takes_part = z;
                },
              )
            ]
          ]
        ]
      ]
    ]
  ]

  validate_passes :
      (session : Session) → Admitted session → validate env stores r s ≡ (ok session, s)
  unfolding validate require_entity fetch
  validate_passes session admitted =
      let (owner, p) = admitted.owner in
      let (initiator, q) = admitted.initiator in
      ground (
        arith, p, q, admitted.stored, admitted.is_active, admitted.owner_takes_part,
        admitted.initiator_takes_part,
      )

  -- what the session's budget and the enforcer say to the question of a number
  abbrev pub budget : ℕ → Session → Call env stores (Unit {0})
  budget question session =
      enforce_token_budget env stores question session r.operation r.input_payload

  budget-Quiet : (question : ℕ) (session : Session) → (budget question session s).1 ≡ s
  unfolding enforce_token_budget
  budget-Quiet question session = ground arith

  check-Quiet : (key : Option String) → (check_idempotency env stores r key s).1 ≡ s
  unfolding check_idempotency
  check-Quiet none = refl
  check-Quiet (some key) = ground arith

  -- What follows the checks of the session and of its budget.
  record Checked {A : Type 0} (cached : Activity → A) (new m : Call env stores A) (question : ℕ)
      : Type 0 where
    session : Session
    admitted : Admitted session
    in_budget : budget question session s ≡ (ok tt, s)
    goes :
        m s
        ≡ (check_idempotency env stores r r.idempotency_key
              >>= unless_cached env stores r cached new)
            s

  admit-Checked :
      {A : Type 0} (question : ℕ) (cached : Activity → A) (new : Call env stores A)
      → ((e : Error) × (admit env stores r question cached new s ≡ (err e, s)))
        ⊎ Checked cached new (admit env stores r question cached new) question
  unfolding admit
  admit-Checked {A = A} question cached new =
      let check = check_idempotency env stores r r.idempotency_key in
      let behind_check = unless_cached env stores r cached new in
      let behind_validate : Session → Call env stores A =
        λ session. budget question session >> (check >>= behind_check) in
      elim validate_cases [
        | inl (e, p) ↦ inl (e, then_err (validate env stores r) behind_validate s s e p)
        | inr (session, p, admitted) ↦
            let start = then_ok (validate env stores r) behind_validate s s session p in
            let rest : Unit {0} → Call env stores A = λ _. check >>= behind_check in
            elim (Result-cases (budget question session s).0) [
              | inr (e, q) ↦
                  let stops = ap2 q (budget-Quiet question session) in
                  inl (e, start ∙ then_err (budget question session) rest s s e stops)
              | inl (u, q) ↦
                  let passes = ap2 q (budget-Quiet question session) in
                  inr (record {
                    session = session;
                    admitted = admitted;
                    in_budget = passes;
                    goes = start ∙ then_ok (budget question session) rest s s u passes;
                  })
            ]
      ]

  found_cases :
      {A : Type 0} (cached : Activity → A) (new : Call env stores A) {hit : Option Activity}
      {outcome : Result A × ServerState stores}
      → outcome ≡ unless_cached env stores r cached new hit s
      → check_idempotency env stores r r.idempotency_key s ≡ (ok hit, s)
      → ((a : Activity) × (outcome ≡ (ok (cached a), s))
          × (check_idempotency env stores r r.idempotency_key s ≡ (ok (some a), s)))
        ⊎ (outcome ≡ new s)
  found_cases cached new {hit = some a} p found = inl (a, p, found)
  found_cases cached new {hit = none} p found = inr p

  -- A start raises and changes nothing, or is that of an admitted session and within its budget. Then
  -- it returns the activity that the key was stored with and changes nothing, or goes on with a new one.
  pub admit_cases :
      {A : Type 0} (question : ℕ) (cached : Activity → A) (new : Call env stores A)
      → ((e : Error) × (admit env stores r question cached new s ≡ (err e, s)))
        ⊎ ((session : Session) × Admitted session
            × (budget question session s ≡ (ok tt, s))
            × (((a : Activity) × (admit env stores r question cached new s ≡ (ok (cached a), s))
                  × (check_idempotency env stores r r.idempotency_key s ≡ (ok (some a), s)))
                ⊎ (admit env stores r question cached new s ≡ new s)))
  admit_cases question cached new =
      let check = check_idempotency env stores r r.idempotency_key in
      let behind_check = unless_cached env stores r cached new in
      elim (admit-Checked question cached new) [
        | inl refused ↦ inl refused
        | inr p ↦ elim (Result-cases (check s).0) [
          | inr (e, w) ↦
              let stops = ap2 w (check-Quiet r.idempotency_key) in
              inl (e, p.goes ∙ then_err check behind_check s s e stops)
          | inl (hit, w) ↦
              let found = ap2 w (check-Quiet r.idempotency_key) in
              let goes = p.goes ∙ then_ok check behind_check s s hit found in
              inr (p.session, p.admitted, p.in_budget, found_cases cached new goes found)
        ]
      ]

  -- A start that is admitted, is within the budget and whose key is known returns the activity that the
  -- key was stored with.
  pub start_cached :
      (question : ℕ) (run_handler : Execute) (session : Session) (a : Activity)
      → Admitted session
      → budget question session s ≡ (ok tt, s)
      → check_idempotency env stores r r.idempotency_key s ≡ (ok (some a), s)
      → start env stores r question run_handler s ≡ (ok a, s)
  unfolding start admit
  start_cached question run_handler session a admitted in_budget found =
      let new = start_new env stores r run_handler in
      let behind_check = unless_cached env stores r (λ b. b) new in
      let check = check_idempotency env stores r r.idempotency_key in
      let behind_validate : Session → Call env stores Activity =
        λ session. budget question session >> (check >>= behind_check) in
      then_ok (validate env stores r) behind_validate s s session (validate_passes session admitted)
      ∙ then_ok (budget question session) (λ _. check >>= behind_check) s s tt in_budget
      ∙ then_ok check behind_check s s (some a) found

  pub start_refused :
      (question : ℕ) (run_handler : Execute) (session : Session) (e : Error)
      → Admitted session
      → budget question session s ≡ (err e, s)
      → start env stores r question run_handler s ≡ (err e, s)
  unfolding start admit
  start_refused question run_handler session e admitted over =
      let new = start_new env stores r run_handler in
      let behind_budget =
        check_idempotency env stores r r.idempotency_key
        >>= unless_cached env stores r (λ b. b) new in
      let behind_validate : Session → Call env stores Activity =
        λ session. budget question session >> behind_budget in
      then_ok (validate env stores r) behind_validate s s session (validate_passes session admitted)
      ∙ then_err (budget question session) (λ _. behind_budget) s s e over
