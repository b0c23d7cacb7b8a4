-- ===== src/App/Effects/Sessions.antt =====
-- A call of the server on sessions is one admitted call of the session engine, or changes nothing.
use foundation_protocol.Prelude.{
  arith, ℕ, suc, String, ◌≡◌, refl, ◌⊎◌, inl, inr, Option, none, some, List, [], ◌∷◌, ◌==◌,
  Option-cases, Bool-cases, eq_iff, subst,
}
use Prim.Native.String.{◌++◌ as cat}
use foundation_protocol.Dict
use foundation_protocol.Dict.{Dict}
use foundation_protocol.TextSet.{contains}
use foundation_protocol.Protocol.Errors.{ok, err, Error, fp_error, not_found}
use foundation_protocol.Runtime.Revise.{fetch}
use foundation_protocol.Runtime.Sessions
use foundation_protocol.Stores.Stored.{Stored}
use foundation_protocol.App.State.{
  Environment, Stores, ServerState, utc_now, new_id, fresh, require_entity, require_entities,
}
use foundation_protocol.App.Quiet.{core, count-Keeps, emit_event-Keeps}
use foundation_protocol.Protocol.Models.Sessions.{SessionBudget, SessionState}
use foundation_protocol.App.Steps.{AllKnown, Step, stay, session}
use foundation_protocol.App.Sessions.{
  open_session, sessions_create, sessions_join, sessions_update, sessions_leave, sessions_close,
  given_or_new,
}
use foundation_protocol.App.Calls.{
  SessionsCall, create_call, join_call, update_call, leave_call, close_call, run_sessions,
}

module _ (env : Environment) (stores : Stores) (s : ServerState stores) where
  -- The loop over the participants raises at the first that is not registered.
  pub require_entities_cases :
      (es : List String)
      → ((e : Error) × (require_entities env stores es s ≡ (err e, s)))
        ⊎ ((require_entities env stores es s ≡ (ok tt, s)) × AllKnown stores s.entities es)
  unfolding require_entities require_entity fetch contains
  require_entities_cases [] = inr (refl, λ x there. absurd (ground (arith, there)))
  require_entities_cases (e ∷ es) = elim (Option-cases (stores.entities.get s.entities e)) [
    | inl p ↦ inl (fp_error not_found, ground (arith, p))
    | inr (v, p) ↦ elim (require_entities_cases es) [
      | inl (c, q) ↦ inl (c, ground (arith, p, q))
      | inr (q, all) ↦ inr (
        ground (arith, p, q),
        λ x there. elim (Bool-cases (e == x)) [
          | inl same ↦
              subst (Stored stores.entities s.entities) (ground (arith, same, eq_iff e x)) (v, p)
          | inr other ↦ all x (ground (arith, there, other))
        ],
      )
    ]
  ]

  pub leave_effect :
      (id e : String) → Step stores (core s) (core (sessions_leave env stores id e s).1)
  unfolding Sessions.run sessions_leave utc_now
  leave_effect id e =
      session {a = core s} (Sessions.leave_call id e (env.utc_now s.readings)) tt
        (ground (arith, emit_event-Keeps env stores))

  pub close_effect :
      (id : String) (reason : Option String)
      → Step stores (core s) (core (sessions_close env stores id reason s).1)
  unfolding Sessions.run sessions_close utc_now
  close_effect id reason =
      session {a = core s} (Sessions.close_call id reason (env.utc_now s.readings)) tt
        (ground (arith, emit_event-Keeps env stores))

  pub join_effect :
      (id e : String) (roles : Option (List String))
      → Step stores (core s) (core (sessions_join env stores id e roles s).1)
  unfolding Sessions.run sessions_join utc_now require_entity fetch
  join_effect id e roles = elim (Option-cases (stores.entities.get s.entities e)) [
    | inl p ↦ stay (ground (arith, p))
    | inr (v, p) ↦
        session {a = core s} (Sessions.join_call id e roles (env.utc_now s.readings)) (v, p)
          (ground (arith, p, emit_event-Keeps env stores))
  ]

  -- An id that is given, or a fresh one.
  pub given_or_new_cases :
      (given : Option String) (prefix : String)
      → (id : String) × (n : ℕ) × (given_or_new env stores given prefix s
          ≡ (ok id, record s { uuids = n }))
  unfolding given_or_new new_id fresh
  given_or_new_cases none prefix = (_, _, refl)
  given_or_new_cases (some id) prefix = elim (Bool-cases (id == "")) [
    | inl p ↦ (cat prefix (env.uuid4 s.uuids), suc s.uuids, ground (arith, p))
    | inr p ↦ (id, s.uuids, ground (arith, p))
  ]

  new_session :
      List String
      → Dict (List String)
      → Option String
      → Option SessionBudget
      → String
      → Sessions.NewSession
  new_session participants roles policy_ref budget id = record {
    session_id = id;
    participants = participants;
    roles = roles;
    policy_ref = policy_ref;
    budget = budget;
    metadata = none;
    created_at = env.utc_now s.readings;
    updated_at = env.utc_now (suc s.readings);
  }

  module _ (participants : List String) (roles : Dict (List String)) (policy_ref : Option String)
      (budget : Option SessionBudget) where
    open_effect :
        (id : String)
        → core (open_session env stores participants roles policy_ref budget id s).1
          ≡ record (core s) {
            sessions =
                (Sessions.create stores.sessions
                  (new_session participants roles policy_ref budget id)
                  s.sessions).1;
          }
    unfolding open_session utc_now new_session
    open_effect id = ground (arith, count-Keeps env stores, emit_event-Keeps env stores)

  pub update_effect :
      (id : String) (policy_ref : Option String) (budget : Option SessionBudget)
      (state : Option SessionState) (patch : Dict (List String))
      → Step stores
          (core s)
          (core (sessions_update env stores id policy_ref budget state patch s).1)
  unfolding Sessions.run sessions_update utc_now
  update_effect id policy_ref budget state patch = elim (require_entities_cases (Dict.keys patch)) [
    | inl (e, p) ↦ stay (ground (arith, p))
    | inr (p, all) ↦
        session {a = core s}
          (Sessions.update_call id policy_ref budget state patch (env.utc_now s.readings)) all
          (ground (arith, p, emit_event-Keeps env stores))
  ]

module _ (env : Environment) (stores : Stores) (s : ServerState stores) where
  pub create_effect :
      (participants : List String) (roles : Dict (List String)) (policy_ref : Option String)
      (budget : Option SessionBudget) (given : Option String)
      → Step stores
          (core s)
          (core (sessions_create env stores participants roles policy_ref budget given s).1)
  unfolding Sessions.run sessions_create
  create_effect participants roles policy_ref budget given =
      elim (require_entities_cases env stores s participants) [
        | inl (e, p) ↦ stay (ground (arith, p))
        | inr (p, all) ↦
            let (id, n, q) = given_or_new_cases env stores s given "sess-" in
            let t : ServerState stores = record s { uuids = n } in
            session {a = core s}
              (Sessions.create_call
                (new_session env stores t participants roles policy_ref budget id))
              (unfold new_session in all)
              (ground
                (arith, p, q, open_effect env stores t participants roles policy_ref budget id))
      ]

  pub run_sessions_effect :
      (c : SessionsCall) → Step stores (core s) (core (run_sessions env stores c s))
  unfolding run_sessions
  run_sessions_effect (create_call participants roles policy_ref budget id) =
      create_effect participants roles policy_ref budget id
  run_sessions_effect (join_call id e roles) = join_effect env stores s id e roles
  run_sessions_effect (update_call id policy_ref budget state patch) =
      update_effect env stores s id policy_ref budget state patch
  run_sessions_effect (leave_call id e) = leave_effect env stores s id e
  run_sessions_effect (close_call id reason) = close_effect env stores s id reason
