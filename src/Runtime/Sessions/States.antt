-- ===== src/Runtime/Sessions/States.antt =====
-- The state machine of a session: what each method does to a stored session.
use foundation_protocol.Prelude.{
  ℕ, String, ◌≡◌, ◌⊎◌, inl, inr, true, false, Option, none, some, List, [], ◌∷◌, arith, Bool-cases,
}
use foundation_protocol.Dict.{Dict}
use foundation_protocol.Protocol.Errors.{ok}
use foundation_protocol.Protocol.Models.Sessions.{
  SessionState, SessionBudget, created, active, paused, closing, closed, failed, Session,
}
use foundation_protocol.Runtime.Revise.{Result-cases}
use foundation_protocol.Runtime.Sessions.{
  allowed_transition, same_state, is_over, joined, left, with_state, with_roles, give_roles,
  with_policy, updated, closed_with,
}

-- A step of the state machine, or none.
abbrev pub Moves : SessionState → SessionState → Type 0
Moves a b = (a ≡ b) ⊎ (allowed_transition a b ≡ true)

-- A session that a revision may turn `old` into: it keeps its id, it was not over, and its state
-- makes at most one step of the table.
pub record IsStep (old new : Session) : Type 0 where
  pub same_id : new.session_id ≡ old.session_id
  pub was_open : is_over old.state ≡ false
  pub moved : Moves old.state new.state

pub joined-IsStep :
    (e : String) (roles : Option (List String)) (now : ℕ) (old new : Session)
    → joined e roles now old ≡ ok new
    → IsStep old new
unfolding joined
joined-IsStep e roles now old new h = ground arith

pub left-IsStep :
    (e : String) (now : ℕ) (old new : Session) → left e now old ≡ ok new → IsStep old new
unfolding left
left-IsStep e now old new h = ground arith

pub closed_with-IsStep :
    (reason : Option String) (now : ℕ) (old new : Session)
    → closed_with reason now old ≡ ok new
    → IsStep old new
unfolding closed_with
closed_with-IsStep reason now old new h = ground arith

same_state_sound : (a b : SessionState) → same_state a b ≡ true → a ≡ b
same_state_sound created b h = ground arith
same_state_sound active b h = ground arith
same_state_sound paused b h = ground arith
same_state_sound closing b h = ground arith
same_state_sound closed b h = ground arith
same_state_sound failed b h = ground arith

with_roles_keeps :
    (patch : List (String × List String)) (old new : Session)
    → with_roles patch old ≡ ok new
    → (new.session_id ≡ old.session_id) × (new.state ≡ old.state)
unfolding with_roles
with_roles_keeps [] old new h = ground arith
with_roles_keeps ((e, rs) ∷ patch) old new h =
    ground (arith, with_roles_keeps patch (give_roles e rs old) new)

with_state_moves :
    (state : Option SessionState) (old new : Session)
    → with_state state old ≡ ok new
    → (new.session_id ≡ old.session_id) × Moves old.state new.state
unfolding with_state
with_state_moves none old new h = ground arith
with_state_moves (some state) old new h = ground (arith, same_state_sound state old.state)

module _ (policy_ref : Option String) (budget : Option SessionBudget) (state : Option SessionState)
    (patch : Dict (List String)) (now : ℕ) where
  pub updated-IsStep :
      (old new : Session) → updated policy_ref budget state patch now old ≡ ok new → IsStep old new
  unfolding updated with_policy
  updated-IsStep old new h = elim (Bool-cases (is_over old.state)) [
    | inl over ↦ cc (rw (over, updated) at h)
    | inr open_ ↦ elim (Result-cases (with_state state (with_policy policy_ref budget old))) [
      | inr (e, p) ↦ ground (arith, open_, p, h)
      | inl (middle, p) ↦ elim (Result-cases (with_roles patch middle)) [
        | inr (e, q) ↦ ground (arith, open_, p, q, h)
        | inl (last, q) ↦
            let a = with_state_moves state (with_policy policy_ref budget old) middle p in
            let b = with_roles_keeps patch middle last q in ground (arith, open_, p, q, h, a, b)
      ]
    ]
  ]
