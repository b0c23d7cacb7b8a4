-- ===== src/Runtime/Sessions.antt =====
-- src/fp/runtime/session_engine.py. The clock's readings (`utc_now`) are arguments. A method that
-- changes a stored session is a revision by a pure function of the session.
pub mod States
pub mod Roles
pub mod WellFormed
pub mod Calls
pub mod Frozen
use mathlib.Core.List.{foldl}
use foundation_protocol.Prelude.{
  ℕ, String, Bool, true, false, not, ◌&&◌, ◌||◌, Option, none, some, List, [], ◌∷◌, any_of,
  is_empty, is_none, ltb, nat_eq, if◌then◌else◌,
}
use foundation_protocol.Dict
use foundation_protocol.Dict.{Dict}
use foundation_protocol.TextSet.{card, add, discard, subset}
use foundation_protocol.Protocol.Errors.{
  Result, ok, err, Exec, fp_error, already_exists, invalid_argument, invalid_state_transition,
  check, raise_if, lift, pure, gets, ◌>>=◌, ◌>>◌,
}
use foundation_protocol.Protocol.Json.{Fields, str, put_field}
use foundation_protocol.Protocol.Models.Sessions.{
  SessionState, created, active, paused, closing, closed, failed, SessionBudget, Session,
  init_session,
}
use foundation_protocol.Stores.Interfaces.{SessionStore}
use foundation_protocol.Runtime.Revise.{fetch, save, revise}

-- `_ALLOWED_SESSION_TRANSITIONS`
unfoldable pub allowed_transition : SessionState → SessionState → Bool
allowed_transition created active = true
allowed_transition created closing = true
allowed_transition created closed = true
allowed_transition created failed = true
allowed_transition active paused = true
allowed_transition active closing = true
allowed_transition active closed = true
allowed_transition active failed = true
allowed_transition paused active = true
allowed_transition paused closing = true
allowed_transition paused closed = true
allowed_transition paused failed = true
allowed_transition closing closed = true
allowed_transition closing failed = true
allowed_transition _ _ = false

-- `a is b` on two states
abbrev rank : SessionState → ℕ
rank created = 0
rank active = 1
rank paused = 2
rank closing = 3
rank closed = 4
rank failed = 5

abbrev pub same_state : SessionState → SessionState → Bool
same_state a b = nat_eq (rank a) (rank b)

-- `state in {CLOSED, FAILED}`
abbrev pub is_over : SessionState → Bool
is_over closed = true
is_over failed = true
is_over _ = false

-- `normalized_roles.setdefault(entity_id, {"participant"})` for each participant
unfoldable pub default_roles : Dict (List String) → List String → Dict (List String)
default_roles roles [] = roles
default_roles roles (e ∷ es) = default_roles (Dict.set_default roles e ("participant" ∷ [])) es

unfoldable pub no_budget : SessionBudget
no_budget = record { spend_limit = none; token_limit = none }

abbrev or_default {ℓ} : {A : Type ℓ} → Option A → A → A
or_default none d = d
or_default (some a) d = a

-- The new roles of an entity that joins.
unfoldable pub roles_on_join :
    Dict (List String) → String → Option (List String) → Dict (List String)
roles_on_join roles entity_id none = Dict.set_default roles entity_id ("participant" ∷ [])
roles_on_join roles entity_id (some []) = Dict.set_default roles entity_id ("participant" ∷ [])
roles_on_join roles entity_id (some (r ∷ rs)) = Dict.put roles entity_id (r ∷ rs)

unfoldable pub joined : String → Option (List String) → ℕ → Session → Result Session
unfolding roles_on_join
joined entity_id roles now session =
    check (not (same_state session.state active)) invalid_state_transition (
      ok (record session {
        participants = add session.participants entity_id;
        roles = roles_on_join session.roles entity_id roles;
        updated_at = now;
      }))

unfoldable pub left : String → ℕ → Session → Result Session
left entity_id now session = check (is_over session.state) invalid_state_transition (
    ok (record session {
      participants = discard session.participants entity_id;
      roles = Dict.remove session.roles entity_id;
      updated_at = now;
    }))

-- The assignment of `state` in `update`.
unfoldable pub with_state : Option SessionState → Session → Result Session
unfolding allowed_transition
with_state none session = ok session
with_state (some state) session =
    check (not (same_state state session.state) && not (allowed_transition session.state state))
      invalid_state_transition (ok (record session { state = state }))

-- `session.roles[entity_id] = role_set; session.participants.add(entity_id)`
unfoldable pub give_roles : String → List String → Session → Session
give_roles entity_id role_set session = record session {
  roles = Dict.put session.roles entity_id role_set;
  participants = add session.participants entity_id;
}

-- The loop over `roles_patch`.
unfoldable pub with_roles : Dict (List String) → Session → Result Session
unfolding give_roles
with_roles [] session = ok session
with_roles ((entity_id, role_set) ∷ patch) session =
    let rest = with_roles patch (give_roles entity_id role_set session) in
    check (is_empty role_set) invalid_argument rest

abbrev stamped : ℕ → Result Session → Result Session
stamped now (ok session) = ok (record session { updated_at = now })
stamped now (err e) = err e

abbrev and_then : Result Session → (Session → Result Session) → Result Session
and_then (ok session) f = f session
and_then (err e) f = err e

-- The assignments of `policy_ref` and `budget` in `update`.
unfoldable pub with_policy : Option String → Option SessionBudget → Session → Session
with_policy policy_ref budget session = record session {
  policy_ref = elim policy_ref [ none ↦ session.policy_ref | some p ↦ some p ];
  budget = or_default budget session.budget;
}

-- An absent patch and an empty one change no role.
unfoldable pub updated :
    Option String
    → Option SessionBudget
    → Option SessionState
    → Dict (List String)
    → ℕ
    → Session
    → Result Session
unfolding with_state with_roles with_policy
updated policy_ref budget state roles_patch now session =
    check (is_over session.state) invalid_state_transition (
      stamped now (
        and_then (with_state state (with_policy policy_ref budget session))
          (with_roles roles_patch)))

-- `if reason: session.metadata["close_reason"] = reason`
unfoldable pub close_metadata : Option String → Fields → Fields
close_metadata none metadata = metadata
close_metadata (some String.[]) metadata = metadata
close_metadata (some reason) metadata = put_field metadata "close_reason" (str reason)

unfoldable pub closed_with : Option String → ℕ → Session → Result Session
unfolding allowed_transition
closed_with reason now session =
    check (not (allowed_transition session.state closed)) invalid_state_transition (
      ok (record session {
        state = closed;
        metadata = close_metadata reason session.metadata;
        updated_at = now;
      }))

-- The arguments of `create`, and the two readings of the clock in `Session(...)`.
pub record NewSession : Type 0 where
  pub session_id : String
  pub participants : List String
  pub roles : Dict (List String)
  pub policy_ref : Option String
  pub budget : Option SessionBudget
  pub metadata : Option Fields
  pub created_at : ℕ
  pub updated_at : ℕ

-- The session that `create` builds.
unfoldable pub opened : NewSession → Session
unfolding default_roles no_budget
opened n = record {
  session_id = n.session_id;
  participants = n.participants;
  roles = default_roles n.roles n.participants;
  state = active;
  policy_ref = n.policy_ref;
  budget = or_default n.budget no_budget;
  created_at = n.created_at;
  updated_at = n.updated_at;
  metadata = or_default n.metadata Fields.end;
}

-- The checks of `create` on its arguments.
unfoldable pub checked : NewSession → Result Session
unfolding opened
checked n = check (ltb (card n.participants) 2) invalid_argument (
    check (not (subset (Dict.keys n.roles) n.participants)) invalid_argument
      (check (any_of (λ e. is_empty e.1) n.roles) invalid_argument (init_session (opened n))))

-- One call of a method that may change a session.
pub data SessionCall : Type 0 where
  create_call : NewSession → SessionCall
  join_call : String → String → Option (List String) → ℕ → SessionCall
  leave_call : String → String → ℕ → SessionCall
  update_call :
      String
      → Option String
      → Option SessionBudget
      → Option SessionState
      → Dict (List String)
      → ℕ
      → SessionCall
  close_call : String → Option String → ℕ → SessionCall

module _ (store : SessionStore) where
  unfoldable pub create : NewSession → Exec store.State Session
  unfolding checked
  create n = do
    existing ← gets (λ s. store.get s n.session_id)
    raise_if (not (is_none existing)) already_exists
    session ← lift (checked n)
    save store session
    pure session

  unfoldable pub join : String → String → Option (List String) → ℕ → Exec store.State Session
  unfolding joined
  join session_id entity_id roles now = revise store session_id (joined entity_id roles now)

  unfoldable pub leave : String → String → ℕ → Exec store.State Session
  unfolding left
  leave session_id entity_id now = revise store session_id (left entity_id now)

  unfoldable pub update :
      String
      → Option String
      → Option SessionBudget
      → Option SessionState
      → Dict (List String)
      → ℕ
      → Exec store.State Session
  unfolding updated
  update session_id policy_ref budget state roles_patch now =
      revise store session_id (updated policy_ref budget state roles_patch now)

  -- A session that is closed already is returned as it is.
  unfoldable pub close : String → Option String → ℕ → Exec store.State Session
  close session_id reason now = do
    session ← fetch store session_id
    if same_state session.state closed
        then pure session
        else revise store session_id (closed_with reason now)

  unfoldable pub run : SessionCall → Exec store.State Session
  run (create_call n) = create n
  run (join_call session_id entity_id roles now) = join session_id entity_id roles now
  run (leave_call session_id entity_id now) = leave session_id entity_id now
  run (update_call session_id policy_ref budget state roles_patch now) =
      update session_id policy_ref budget state roles_patch now
  run (close_call session_id reason now) = close session_id reason now

  -- The store after a list of calls; a raise ends only its own call.
  unfoldable pub run_all : List SessionCall → store.State → store.State
  unfolding run
  run_all [] s = s
  run_all (c ∷ calls) s = run_all calls (run c s).1
